-- ===== src/Redlock/Execute.antt =====
-- packages/distribution-redlock/src/redlock.service.ts, `_execute`: the retry loop, over a world `W`
-- in which attempts run, time passes and random numbers are drawn. An attempt that never settles is
-- `none`. The loop has no bound of its own when `retryCount` is -1, so it runs on fuel.
pub mod Retrying
pub mod Unbounded
pub mod Termination
pub mod Tie
use nestplatform.Base.{
  ℕ, zero, suc, ◌+◌, ◌-◌, ◌*◌, ◌/◌, Option, none, some, Bool, true, false, List, [], ◌∷◌, ◌++◌, ltb,
  if◌then◌else◌, length,
}
use nestplatform.Base.Int.{ℤ, pos, negsuc}
use nestplatform.Redlock.Voting.{
  Error, resource_locked, lock_execution, no_script, script_error, unexpected_reply, other,
  ExecutionStats, Verdict, for, against,
}

-- A fraction of two numbers, for the settings and random numbers that are no integers.
pub record Ratio : Type 0 where
  pub num : ℕ
  pub den : ℕ

pub record RedlockConfig : Type 0 where
  pub drift_factor : Ratio
  pub retry_count : ℤ
  pub retry_delay : ℕ
  pub retry_jitter : ℕ
  pub automatic_extension_threshold : ℕ

-- 1 % of drift, 3 retries, 200 ms apart with 100 ms of jitter, extension 500 ms before the end.
abbrev pub default_redlock_config : RedlockConfig
default_redlock_config = record {
  drift_factor = record { num = 1; den = 100 };
  retry_count = pos 3;
  retry_delay = 200;
  retry_jitter = 100;
  automatic_extension_threshold = 500;
}

pub record Attempted : Type 0 where
  pub verdict : Verdict
  pub stats : ExecutionStats
  pub start : ℤ

pub record ExecutionResult : Type 0 where
  pub attempts : List ExecutionStats
  pub start : ℤ

pub data Thrown : Type 0 where
  resource_locked_exception invalid_duration invalid_threshold already_expired : Thrown
  lock_execution_exception : List ExecutionStats → Thrown

pub data Outcome {ℓ} (A : Type ℓ) (W : Type ℓ) : Type ℓ where
  returned : A → W → Outcome A W
  threw : Thrown → W → Outcome A W
  never_settles out_of_fuel : Outcome A W

-- `maxAttempts`; `none` is Infinity. Below -1 the source's bound is zero or negative, which no
-- number of attempts is below, as for zero.
abbrev pub max_attempts : ℤ → Option ℕ
max_attempts (pos n) = some (suc n)
max_attempts (negsuc zero) = none
max_attempts (negsuc (suc n)) = some 0

abbrev pub push_stats : Option ℕ → List ExecutionStats → ExecutionStats → List ExecutionStats
push_stats none attempts s = attempts
push_stats (some n) attempts s = attempts ++ s ∷ []

-- `attempts.length < maxAttempts`
abbrev pub may_retry : Option ℕ → List ExecutionStats → Bool
may_retry none attempts = true
may_retry (some n) attempts = ltb (length attempts) n

-- `max (0, delay + floor ((2 r - 1) jitter))` for a random `r` in [0, 1). The jitter is an integer,
-- so the floor is `floor (2 r jitter) - jitter`, and `-` on ℕ takes the maximum with 0.
abbrev pub wait_time : RedlockConfig → Ratio → ℕ
wait_time c r = c.retry_delay + 2 * r.num * c.retry_jitter / r.den - c.retry_jitter

abbrev pub failure : Error → List ExecutionStats → Thrown
failure resource_locked attempts = resource_locked_exception
failure e attempts = lock_execution_exception attempts

module _ {W : Type 0} (sleep : ℕ → W → W) (random : W → Ratio) (config : RedlockConfig)
    (attempt : W → Option (Attempted × W)) where
  -- The `while` loop, for a given `maxAttempts`.
  unfoldable pub execute_loop : Option ℕ → ℕ → List ExecutionStats → W → Outcome ExecutionResult W
  execute_loop most zero attempts w = out_of_fuel
  execute_loop most (suc fuel) attempts w = elim (attempt w) [
    | none ↦ never_settles
    | some (a, w') ↦
        let attempts' = push_stats most attempts a.stats in
        let again = execute_loop most fuel attempts' (sleep (wait_time config (random w')) w') in
        elim a.verdict [
          | for ↦ returned (record { attempts = attempts'; start = a.start }) w'
          | against e ↦ if may_retry most attempts' then again else threw (failure e attempts') w'
        ]
  ]

  unfoldable pub execute : ℕ → W → Outcome ExecutionResult W
  unfolding execute_loop
  execute fuel w = execute_loop (max_attempts config.retry_count) fuel [] w
