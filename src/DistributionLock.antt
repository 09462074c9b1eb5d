-- ===== src/DistributionLock.antt =====
-- packages/distribution-lock/src/distribution-lock-feature.decoration.ts: the method that replaces one
-- decorated with `@DistributionLock`. A lock service is a parameter: `withLock` on one key, a TTL and
-- a handler. How `String` turns arguments into texts is one too. Services are kept by their names in
-- the order of their registration. `none` as a value is `undefined`.
pub mod Guarding
pub mod Wiring
mod Examples
use nestplatform.Base.{
  ℕ, ◌≡◌, String, Option, none, some, Bool, true, false, not, List, [], ◌∷◌, str_eq, if◌then◌else◌,
}
use nestplatform.Common.Stringify.{Text, stringify_method}

pub data Error : Type 0 where
  resource_locked_exception : Error
  other : ℕ → Error

-- The `TypeError` of `String`.
abbrev pub type_error : Error
type_error = other 0

pub data Result (A : Type 0) : Type 0 where
  ok : A → Result A
  throw : Error → Result A

-- A key, or a function of the arguments, which may throw.
pub data LockKey (Args : Type 0) : Type 0 where
  fixed : String → LockKey Args
  derived : (Args → Result String) → LockKey Args

pub record DistributionLockOptions (Args : Type 0) : Type 0 where
  pub key : LockKey Args
  pub ttl : ℕ
  pub provider : Option String

abbrev pub Action : Type 0 → Type 0 → Type 0
Action W Value = W → W × Result (Option Value)

abbrev pub LockService : Type 0 → Type 0 → Type 0
LockService W Value = String → ℕ → Action W Value → Action W Value

abbrev pub service_named : {S : Type 0} → String → List (String × S) → Option S
service_named p [] = none
service_named p ((q, l) ∷ services) = if str_eq q p then some l else service_named p services

abbrev pub first_service : {S : Type 0} → List (String × S) → Option S
first_service [] = none
first_service ((q, l) ∷ services) = some l

-- `lockOptions.provider || "default"`
abbrev pub provider_key : Option String → String
provider_key none = "default"
provider_key (some p) = if str_eq p "" then "default" else p

abbrev pub or_first : {S : Type 0} → Option S → Option S → Option S
or_first none fallback = fallback
or_first (some l) fallback = some l

unfoldable pub lock_service : {S : Type 0} → Option String → List (String × S) → Option S
lock_service provider services =
    or_first (service_named (provider_key provider) services) (first_service services)

abbrev pub lock_key : {Args : Type 0} → LockKey Args → Args → Result String
lock_key (fixed k) args = ok k
lock_key (derived f) args = f args

module _ {W Value : Type 0} where
  -- The `catch`: a locked resource makes the call return `undefined`.
  abbrev pub skip_locked : W × Result (Option Value) → W × Result (Option Value)
  skip_locked (w, ok v) = (w, ok v)
  skip_locked (w, throw resource_locked_exception) = (w, ok none)
  skip_locked (w, throw (other n)) = (w, throw (other n))

  -- The lock key, and then the text for the log, are computed before the `try`.
  abbrev pub guarded :
      LockService W Value → ℕ → Action W Value → Result String → Option Text → Action W Value
  guarded service ttl method (throw e) text w = (w, throw e)
  guarded service ttl method (ok k) none w = (w, throw type_error)
  guarded service ttl method (ok k) (some text) w = skip_locked (service k ttl method w)

  module _ {Args : Type 0} (texts : Args → List (Option Text)) (method_name : Text) where
    abbrev pub wrapped :
        Option (LockService W Value)
        → DistributionLockOptions Args
        → (Args → Action W Value)
        → Args
        → Action W Value
    wrapped none o method args = method args
    wrapped (some service) o method args =
        guarded service o.ttl (method args) (lock_key o.key args)
          (stringify_method method_name (texts args))

    -- Without any service the method is left as it is.
    unfoldable pub wrap_method_with_distribution_lock :
        List (String × LockService W Value)
        → DistributionLockOptions Args
        → (Args → Action W Value)
        → Args
        → Action W Value
    unfolding lock_service stringify_method
    wrap_method_with_distribution_lock services o method =
        wrapped (lock_service o.provider services) o method
