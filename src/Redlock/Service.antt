-- ===== src/Redlock/Service.antt =====
-- packages/distribution-redlock/src/redlock.service.ts, `acquire`, `release` and `extend`, and
-- redlock.util.ts, the `RedLock` handle. A method returns the handles that it changes beside its
-- outcome. Times are integers in milliseconds; a product with the drift factor is exact here.
pub mod Validity
pub mod Cleanup
use nestplatform.Base.{
  ℕ, suc, ◌+◌, ◌*◌, String, Option, none, some, Bool, true, false, List, [], if◌then◌else◌,
}
use nestplatform.Base.Int.{ℤ, pos, ◌+ℤ◌, ◌-ℤ◌, ltb_ℤ, scale, floor_div}
use nestplatform.Redlock.Voting.{ExecutionStats}
use nestplatform.Redlock.Cluster.{Operation, acquiring, extending, releasing}
use nestplatform.Redlock.Execute.{
  Ratio, RedlockConfig, Attempted, ExecutionResult, Thrown, Outcome, returned, threw, never_settles,
  out_of_fuel, invalid_duration, already_expired, execute,
}

-- A duration that the caller passes: an integer, or a number that is none.
pub data Duration : Type 0 where
  millis : ℤ → Duration
  fractional : Duration

pub record RedLock : Type 0 where
  pub resources : List String
  pub value : String
  pub attempts : List ExecutionStats
  pub expiration : ℤ

-- `Partial<RedlockConfig>`, spread over the service's own settings.
pub record Override : Type 0 where
  pub drift_factor : Option Ratio
  pub retry_count : Option ℤ
  pub retry_delay : Option ℕ
  pub retry_jitter : Option ℕ

abbrev pub or_else {ℓ} : {A : Type ℓ} → Option A → A → A
or_else none a = a
or_else (some b) a = b

abbrev pub no_override : Override
no_override = record {
  drift_factor = none;
  retry_count = none;
  retry_delay = none;
  retry_jitter = none;
}

abbrev pub once_only : Override
once_only = record {
  drift_factor = none;
  retry_count = some (pos 0);
  retry_delay = none;
  retry_jitter = none;
}

unfoldable pub with_override : RedlockConfig → Override → RedlockConfig
with_override c o = record c {
  drift_factor = or_else o.drift_factor c.drift_factor;
  retry_count = or_else o.retry_count c.retry_count;
  retry_delay = or_else o.retry_delay c.retry_delay;
  retry_jitter = or_else o.retry_jitter c.retry_jitter;
}

-- `Math.round (factor * duration) + 2`; rounding takes the floor of the product and a half.
unfoldable pub drift : Ratio → ℤ → ℤ
drift f d = floor_div (scale (2 * f.num) d +ℤ pos f.den) (2 * f.den) +ℤ pos 2

-- What the service runs on: sleeping, random numbers, the clock, fresh lock values, and an attempt
-- of an operation on all clients.
pub record Runtime : Type 1 where
  pub W : Type 0
  pub sleep : ℕ → W → W
  pub random : W → Ratio
  pub now : W → ℤ
  pub fresh : W → String × W
  pub attempt : Operation → List String → W → Option (Attempted × W)

module _ (t : Runtime) (config : RedlockConfig) where
  open t use {W, sleep, random, now, fresh, attempt}

  unfoldable pub execute_with :
      Operation → List String → Override → ℕ → W → Outcome ExecutionResult W
  unfolding with_override
  execute_with op ks o fuel w = execute sleep random (with_override config o) (attempt op ks) fuel w

  abbrev pub lock_of : List String → String → Override → ℤ → ExecutionResult → RedLock
  lock_of ks v o d r = record {
    resources = ks;
    value = v;
    attempts = r.attempts;
    expiration = r.start +ℤ d -ℤ drift (or_else o.drift_factor config.drift_factor) d;
  }

  -- The `catch` of acquire: release what a minority of the nodes may hold, ignore how that ends,
  -- and throw the first error again.
  abbrev pub rethrow : Thrown → Outcome ExecutionResult W → Outcome RedLock W
  rethrow x (returned r w') = threw x w'
  rethrow x (threw y w') = threw x w'
  rethrow x never_settles = never_settles
  rethrow x out_of_fuel = out_of_fuel

  abbrev pub acquired :
      List String → String → Override → ℤ → ℕ → Outcome ExecutionResult W → Outcome RedLock W
  acquired ks v o d fuel (returned r w') = returned (lock_of ks v o d r) w'
  acquired ks v o d fuel (threw x w') = rethrow x (execute_with (releasing v) ks once_only fuel w')
  acquired ks v o d fuel never_settles = never_settles
  acquired ks v o d fuel out_of_fuel = out_of_fuel

  unfoldable pub acquire : List String → Duration → Override → ℕ → W → Outcome RedLock W
  acquire ks fractional o fuel w = threw invalid_duration w
  acquire ks (millis d) o fuel w =
      acquired ks (fresh w).0 o d fuel
        (execute_with (acquiring (fresh w).0 d) ks o fuel (fresh w).1)

  unfoldable pub release : RedLock → Override → ℕ → W → RedLock × Outcome ExecutionResult W
  release lock o fuel w = (
    record lock { expiration = pos 0 },
    execute_with (releasing lock.value) lock.resources o fuel w,
  )

  -- A failed extension leaves the handle as it was.
  abbrev pub extended :
      RedLock → ℤ → Override → Outcome ExecutionResult W → RedLock × Outcome RedLock W
  extended lock d o (returned r w') =
      (record lock { expiration = pos 0 }, returned (lock_of lock.resources lock.value o d r) w')
  extended lock d o (threw x w') = (lock, threw x w')
  extended lock d o never_settles = (lock, never_settles)
  extended lock d o out_of_fuel = (lock, out_of_fuel)

  unfoldable pub extend : RedLock → Duration → Override → ℕ → W → RedLock × Outcome RedLock W
  extend lock fractional o fuel w = (lock, threw invalid_duration w)
  extend lock (millis d) o fuel w =
      if ltb_ℤ lock.expiration (now w)
      then (lock, threw already_expired w)
      else extended lock d o (execute_with (extending lock.value d) lock.resources o fuel w)
