-- ===== src/Redlock/Service/Validity.antt =====
-- How long a handle counts as valid, against the TTL that the nodes were given.
use mathlib.Core.Path.{subst}
use native.Mathlib.Nat.{div-add-mod, mod-lt}
use nestplatform.Base.{ℕ, ◌+◌, ◌*◌, ◌/◌, ◌≤◌, ◌<◌, ◌≡◌, ◌≢◌, refl, String, List, arith}
use nestplatform.Base.Int.{ℤ, pos, ◌+ℤ◌, ◌-ℤ◌, int_laws}
use nestplatform.Redlock.Execute.{
  Ratio, RedlockConfig, ExecutionResult, Outcome, returned, threw, never_settles, out_of_fuel,
  Thrown,
}
use nestplatform.Redlock.Cluster.{acquiring}
use nestplatform.Redlock.Service.{
  millis, RedLock, Override, or_else, drift, Runtime, execute_with, rethrow, acquired, acquire,
}

sum_pos : (a b : ℕ) → pos a +ℤ pos b ≡ pos (a + b)
unfolding ◌+ℤ◌
sum_pos a b = ground arith

-- The drift of a duration that is not negative: the product, rounded to the nearest integer (a half
-- rounds up), and two milliseconds.
abbrev pub rounded : Ratio → ℕ → ℕ
rounded f d = (2 * f.num * d + f.den) / (2 * f.den)

drift_lem : (f : Ratio) (d : ℕ) → drift f (pos d) ≡ pos (rounded f d + 2)
unfolding drift
drift_lem f d = rw (sum_pos (2 * f.num * d) f.den, sum_pos (rounded f d) 2)

rounded_nearest :
    (f : Ratio) (d : ℕ)
    → 0 < f.den
    → (2 * f.num * d ≤ 2 * f.den * rounded f d + f.den)
      × (2 * f.den * rounded f d ≤ 2 * f.num * d + f.den)
rounded_nearest f d h = grind (arith, div-add-mod (2 * f.num * d + f.den) (2 * f.den), mod-lt)

-- The end of a lock's validity: `margin` milliseconds before the TTL that started at `start` runs
-- out, where the margin is the drift factor's share of the duration, to the nearest integer, and
-- two milliseconds more.
pub record ExpiresBefore (expiration start : ℤ) (d : ℕ) (f : Ratio) : Type 0 where
  pub margin : ℕ
  pub ends : expiration +ℤ pos (margin + 2) ≡ start +ℤ pos d
  pub not_less : 2 * f.num * d ≤ 2 * f.den * margin + f.den
  pub not_more : 2 * f.den * margin ≤ 2 * f.num * d + f.den

cancel : (a b c : ℤ) → a +ℤ b -ℤ c +ℤ c ≡ a +ℤ b
cancel a b c = omega int_laws

expires :
    (start : ℤ) (d : ℕ) (f : Ratio)
    → 0 < f.den
    → ExpiresBefore (start +ℤ pos d -ℤ drift f (pos d)) start d f
expires start d f h = record {
  margin = rounded f d;
  ends = rw (drift_lem f d) (cancel start (pos d) (pos (rounded f d + 2)));
  not_less = (rounded_nearest f d h).0;
  not_more = (rounded_nearest f d h).1;
}

module _ (t : Runtime) (config : RedlockConfig) where
  open t use {W}

  -- The `catch` of acquire never returns a lock.
  pub rethrow_throws :
      (x : Thrown) (r : Outcome ExecutionResult W) (w' : W) (lock : RedLock)
      → rethrow t config x r ≢ returned lock w'
  rethrow_throws x (returned r u) w' lock e = cc
  rethrow_throws x (threw y u) w' lock e = cc
  rethrow_throws x never_settles w' lock e = cc
  rethrow_throws x out_of_fuel w' lock e = cc

module _ (t : Runtime) (config : RedlockConfig) (ks : List String) (d : ℕ) (o : Override)
    (fuel : ℕ) where
  open t use {W, fresh, attempt}

  abbrev pub Granted : String → Outcome ExecutionResult W → W → RedLock → Type 0
  Granted v x w' lock =
      (lock.resources ≡ ks)
      × (lock.value ≡ v)
      × ((r : ExecutionResult) × (x ≡ returned r w')
          × (lock.attempts ≡ r.attempts)
          × ExpiresBefore lock.expiration r.start d (or_else o.drift_factor config.drift_factor))

  acquired_valid :
      (v : String) (x : Outcome ExecutionResult W) (w' : W) (lock : RedLock)
      → 0 < (or_else o.drift_factor config.drift_factor).den
      → acquired t config ks v o (pos d) fuel x ≡ returned lock w'
      → Granted v x w' lock
  acquired_valid v (returned r u) w' lock h e = subst (Granted v (returned r u) w') (ground arith) (
    refl,
    refl,
    (r, ground arith, refl, expires r.start d (or_else o.drift_factor config.drift_factor) h),
  )
  acquired_valid v (threw x u) w' lock h e = absurd (rethrow_throws t config x _ w' lock e)
  acquired_valid v never_settles w' lock h e = cc
  acquired_valid v out_of_fuel w' lock h e = cc

  -- A lock that `acquire` returns names the resources and carries the fresh value and the
  -- statistics of an operation in its favour; it counts as valid up to the margin before the TTL,
  -- counted from when the attempt in favour started, runs out.
  pub acquire_valid :
      (w w' : W) (lock : RedLock)
      → 0 < (or_else o.drift_factor config.drift_factor).den
      → acquire t config ks (millis (pos d)) o fuel w ≡ returned lock w'
      → Granted
          (fresh w).0
          (execute_with t config (acquiring (fresh w).0 (pos d)) ks o fuel (fresh w).1)
          w'
          lock
  unfolding acquire
  acquire_valid w w' lock h e =
      acquired_valid (fresh w).0
        (execute_with t config (acquiring (fresh w).0 (pos d)) ks o fuel (fresh w).1) w' lock h e
