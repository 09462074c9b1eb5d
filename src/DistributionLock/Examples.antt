-- ===== src/DistributionLock/Examples.antt =====
-- A test, and the theorem on guarded methods at a concrete input: a service whose resource is locked.
use nestplatform.Base.{
  ℕ, suc, ◌≡◌, ◌≢◌, ◌⊎◌, refl, String, Option, none, Bool, true, false, List, [], ◌∷◌,
}
use nestplatform.Common.Stringify.{Text, stringify_method}
use nestplatform.DistributionLock.{
  resource_locked_exception, other, Result, ok, throw, fixed, DistributionLockOptions, Action,
  LockService, lock_service, wrap_method_with_distribution_lock,
}
use nestplatform.DistributionLock.Guarding.{ran, RanUnderLock, guarded_outcome}

-- A world tells whether the lock is held and how often the method ran. A lock that is free is held
-- while the handler runs.
abbrev World : Type 0
World = Bool × ℕ

abbrev Held : String → World → Type 0
Held k w = w.0 ≡ true

abbrev freed : World × Result (Option String) → World × Result (Option String)
freed ((b, n), r) = ((false, n), r)

abbrev free : LockService World String
free k ttl handler w = freed (handler (true, w.1))

-- The method finds another resource locked.
abbrev method : String → Action World String
method args w = ((w.0, suc w.1), throw resource_locked_exception)

abbrev guard : DistributionLockOptions String
guard = record { key = fixed "orders"; ttl = 1000; provider = none }

abbrev no_texts : String → List (Option Text)
no_texts args = []

abbrev skipped : Result (Option String)
skipped = ok none

guarded_outcome_example :
    ((skipped ≡ skipped)
      × (free "orders" 1000 (method "7") (false, 0)
          ≡ ((false, 1), throw resource_locked_exception)))
    ⊎ (((n : ℕ) × (skipped ≡ throw (other n))
          × (free "orders" 1000 (method "7") (false, 0) ≡ ((false, 1), throw (other n))))
        ⊎ ((skipped ≢ throw resource_locked_exception)
            × (free "orders" 1000 (method "7") (false, 0) ≡ ((false, 1), skipped))
            × RanUnderLock Held "orders" (method "7") skipped))
unfolding lock_service wrap_method_with_distribution_lock stringify_method
guarded_outcome_example =
    guarded_outcome Held no_texts (112 ∷ []) (112 ∷ 40 ∷ 41 ∷ []) (("default", free) ∷ []) free
      guard method "7" "orders" (false, 0) (false, 1) skipped refl refl refl
      (ran (true, 0) (true, 1) (false, 1) (throw resource_locked_exception) refl refl refl) refl
