-- ===== src/Redlock/Holding.antt =====
-- packages/distribution-redlock/src/redlock.service.ts, `withLock`: a handler runs while timers extend
-- the lock. The parts that run between two suspensions are the steps of a relation, in any order that
-- the code allows; a timer may fire at any moment, and network calls take any time.
pub mod Invariant
pub mod Outliving
use nestplatform.Base.{
  ℕ, zero, suc, String, Option, none, some, Bool, true, false, List, [], ◌∷◌, ◌++◌, ◌≡◌,
  if◌then◌else◌,
}
use nestplatform.Base.Int.{ℤ, pos, ◌-ℤ◌, ltb_ℤ}
use nestplatform.Redlock.Execute.{
  RedlockConfig, ExecutionResult, Thrown, Outcome, returned, threw, never_settles, out_of_fuel,
  invalid_duration, invalid_threshold,
}
use nestplatform.Redlock.Service.{
  or_else, Duration, millis, fractional, RedLock, Override, no_override, with_override, Runtime,
  acquire, extend, release,
}

-- Where the `try … finally` around the handler stands.
pub data Phase : Type 0 where
  running releasing finished : Phase

pub data LockEvent : Type 0 where
  acquired released : LockEvent

-- `signal`: `abort (e)` sets `aborted` and `reason`.
pub record AbortSignal : Type 0 where
  pub aborted : Bool
  pub reason : Option Thrown
  pub error : Option Thrown

-- `armed` counts the timers that were set and have neither fired nor been cleared, `in_flight` the
-- extensions that have not settled. `lock` is the handle that the next extension extends.
pub record Holding : Type 0 where
  pub phase : Phase
  pub armed : ℕ
  pub in_flight : ℕ
  pub extending : Bool
  pub signal : AbortSignal
  pub lock : RedLock
  pub emitted : List LockEvent

-- `clearTimeout (timeout)`: the variable holds the timer that was set last.
abbrev pub cleared : ℕ → ℕ
cleared zero = zero
cleared (suc n) = n

-- What is scheduled once the lock is acquired.
unfoldable pub begin : RedLock → Holding
begin lock = record {
  phase = running;
  armed = 1;
  in_flight = 0;
  extending = false;
  signal = record { aborted = false; reason = none; error = none };
  lock = lock;
  emitted = acquired ∷ [];
}

-- The callback of a timer.
unfoldable pub timer_fires : Holding → Holding
timer_fires h =
    let fired = record h { armed = cleared h.armed } in
    if h.extending then fired else record fired { extending = true; in_flight = suc h.in_flight }

-- `lock = await lock.extend (duration); scheduleExtend (lock)`, and the `finally`.
unfoldable pub extension_succeeds : RedLock → Holding → Holding
extension_succeeds lock h = record h {
  lock = lock;
  armed = suc h.armed;
  extending = false;
  in_flight = cleared h.in_flight;
}

-- `controller.abort (e)`: the first reason stays.
abbrev pub abort : Thrown → AbortSignal → AbortSignal
abort e s = if s.aborted then s else record s { aborted = true; reason = some e }

unfoldable pub extension_fails : Thrown → Holding → Holding
extension_fails e h = record h {
  signal = abort e h.signal;
  extending = false;
  in_flight = cleared h.in_flight;
}

-- The handler returns or throws, and the `finally` begins.
unfoldable pub handler_settles : Holding → Holding
handler_settles h = record h { phase = releasing; armed = cleared h.armed }

-- `lock.release ()` has settled, whichever way.
unfoldable pub release_settles : Holding → Holding
release_settles h = record h { phase = finished; emitted = h.emitted ++ released ∷ [] }

module _ (t : Runtime) (config : RedlockConfig) where
  open t use {W}

  -- `settings.automaticExtensionThreshold >= duration`
  abbrev pub threshold_reached : ℕ → ℤ → Bool
  threshold_reached threshold d = if ltb_ℤ (pos threshold) d then false else true

  abbrev pub begun : Outcome RedLock W → Outcome Holding W
  begun (returned lock w) = returned (begin lock) w
  begun (threw x w) = threw x w
  begun never_settles = never_settles
  begun out_of_fuel = out_of_fuel

  -- `withLock` up to where the handler is called. The override of the threshold is an argument of
  -- its own.
  unfoldable pub with_lock :
      List String → Duration → Option ℕ → Override → ℕ → W → Outcome Holding W
  unfolding begin
  with_lock ks fractional threshold o fuel w = threw invalid_duration w
  with_lock ks (millis d) threshold o fuel w =
      if threshold_reached (or_else threshold config.automatic_extension_threshold) d
      then threw invalid_threshold w
      else begun (acquire t config ks (millis d) o fuel w)

  -- One step. The extension is `extend` of the service, without an override, in any world: the runs are
  -- those of the code and more, so what is said of all runs holds of the code's.
  pub data Step (d : ℤ) (fuel : ℕ) : Holding → Holding → Type 0 where
    fires : (h : Holding) → (n : ℕ) → h.armed ≡ suc n → Step d fuel h (timer_fires h)
    extends :
        (h : Holding) (n : ℕ) (old new : RedLock) (w w' : W)
        → h.in_flight ≡ suc n
        → extend t config h.lock (millis d) no_override fuel w ≡ (old, returned new w')
        → Step d fuel h (extension_succeeds new h)
    fails :
        (h : Holding) (n : ℕ) (old : RedLock) (e : Thrown) (w w' : W)
        → h.in_flight ≡ suc n
        → extend t config h.lock (millis d) no_override fuel w ≡ (old, threw e w')
        → Step d fuel h (extension_fails e h)
    settles : (h : Holding) → h.phase ≡ running → Step d fuel h (handler_settles h)
    releases : (h : Holding) → h.phase ≡ releasing → Step d fuel h (release_settles h)

  pub data Steps (d : ℤ) (fuel : ℕ) : Holding → Holding → Type 0 where
    here : (h : Holding) → Steps d fuel h h
    next : (h h' h'' : Holding) → Step d fuel h h' → Steps d fuel h' h'' → Steps d fuel h h''
