-- ===== src/DistributionLock/Guarding.antt =====
-- What a guarded method does, for any lock service that keeps the contract of `withLock`.
use nestplatform.Base.{
  ℕ, ◌≡◌, ◌≢◌, ap, sym, ◌∙◌, ◌⊎◌, String, Option, none, some, List, [], ◌∷◌, ◌++◌, refl, inl, inr,
}
use nestplatform.Common.Stringify.{Text, stringify_method, all_texts, in_brackets}
use nestplatform.DistributionLock.{
  resource_locked_exception, other, type_error, Result, ok, throw, DistributionLockOptions, Action,
  LockService, lock_service, lock_key, skip_locked, guarded, wrapped,
  wrap_method_with_distribution_lock,
}

all_texts-none : (before after : List (Option Text)) → all_texts (before ++ none ∷ after) ≡ none
all_texts-none [] after = refl
all_texts-none (none ∷ before) after = refl
all_texts-none (some t ∷ before) after = rw (all_texts-none before after, all_texts) refl

other_unlocked :
    {Value : Type 0} (n : ℕ) (r s : Result (Option Value))
    → r ≡ throw (other n)
    → s ≡ throw resource_locked_exception
    → r ≢ s
other_unlocked n r s is locks e = cc

-- The world of the services, and in which worlds they hold the lock of a key.
module _ {W Value : Type 0} (Held : String → W → Type 0) where
  -- What `withLock` promises for one call: the resource is locked and the handler is not run, or the
  -- service fails in another way before the handler, or the handler runs once in a world in which the
  -- lock is held, and its outcome is the call's.
  pub data KeepsContract (service : LockService W Value) (k : String) (ttl : ℕ)
      (handler : Action W Value) (w : W) : Type 0 where
    locked :
        (u : W)
        → service k ttl handler w ≡ (u, throw resource_locked_exception)
        → KeepsContract service k ttl handler w
    failed :
        (u : W) (n : ℕ)
        → service k ttl handler w ≡ (u, throw (other n))
        → KeepsContract service k ttl handler w
    ran :
        (v v' u : W) (r : Result (Option Value))
        → Held k v
        → handler v ≡ (v', r)
        → service k ttl handler w ≡ (u, r)
        → KeepsContract service k ttl handler w

  -- The handler ran in a world in which the lock is held, with the outcome `r`.
  abbrev pub RanUnderLock : String → Action W Value → Result (Option Value) → Type 0
  RanUnderLock k handler r = (v v' : W) × Held k v × (handler v ≡ (v', r))

module _ {W Value : Type 0} where
  world_of : W × Result (Option Value) → W
  world_of z = z.0

  result_of : W × Result (Option Value) → Result (Option Value)
  result_of z = z.1

  -- What the `catch` does with the outcome of the service.
  skip_locked_outcome :
      (y u : W) (t x : Result (Option Value))
      → skip_locked (y, t) ≡ (u, x)
      → (y ≡ u)
        × (((x ≡ ok none) × (t ≡ throw resource_locked_exception))
            ⊎ ((x ≢ throw resource_locked_exception) × (t ≡ x)))
  unfolding world_of result_of
  skip_locked_outcome y u (ok v) x h =
      let same : ok v ≡ x = ap result_of h in (ap world_of h, inr (λ e. cc, same))
  skip_locked_outcome y u (throw resource_locked_exception) x h =
      (ap world_of h, inl (sym (ap result_of h), refl))
  skip_locked_outcome y u (throw (other n)) x h =
      let same : throw (other n) ≡ x = ap result_of h in (ap world_of h, inr (λ e. cc, same))

  ended :
      {z : W × Result (Option Value)} {y u : W} {r x : Result (Option Value)}
      → z ≡ (y, r)
      → y ≡ u
      → r ≡ x
      → z ≡ (u, x)
  ended {u = u} {r = r} called world same = called ∙ ap (λ v. (v, r)) world ∙ ap (λ s. (u, s)) same

module _ {W Args Value : Type 0} (Held : String → W → Type 0) where
  -- With a service for the method that keeps its contract on a call, and arguments that `String`
  -- takes, the call ends in one of three ways, in the world that the service leaves. It returns
  -- `undefined`, and the service threw ResourceLockedException; or it throws another error, which the
  -- service threw; or it has the outcome of a run of the method under the lock, which is the service's
  -- and is not that exception.
  pub guarded_outcome :
      (texts : Args → List (Option Text)) (method_name text : Text)
      (services : List (String × LockService W Value)) (service : LockService W Value)
      (o : DistributionLockOptions Args) (method : Args → Action W Value) (args : Args) (k : String)
      (w u : W) (x : Result (Option Value))
      → lock_service o.provider services ≡ some service
      → lock_key o.key args ≡ ok k
      → stringify_method method_name (texts args) ≡ some text
      → KeepsContract Held service k o.ttl (method args) w
      → wrap_method_with_distribution_lock texts method_name services o method args w ≡ (u, x)
      → ((x ≡ ok none) × (service k o.ttl (method args) w ≡ (u, throw resource_locked_exception)))
        ⊎ (((n : ℕ) × (x ≡ throw (other n))
              × (service k o.ttl (method args) w ≡ (u, throw (other n))))
            ⊎ ((x ≢ throw resource_locked_exception)
                × (service k o.ttl (method args) w ≡ (u, x))
                × RanUnderLock Held k (method args) x))
  unfolding wrap_method_with_distribution_lock
  guarded_outcome texts method_name text services service o method args k w u x named composed
        printed keeps h =
      let e : skip_locked (service k o.ttl (method args) w) ≡ (u, x) =
        sym (ap (λ t. guarded service o.ttl (method args) (ok k) t w) printed)
        ∙ sym (
            ap
              (λ q.
                guarded service o.ttl (method args) q (stringify_method method_name (texts args)) w)
              composed)
        ∙ sym (ap (λ q. wrapped texts method_name q o method args w) named)
        ∙ h in
      elim keeps [
        | locked y called ↦
            let (world, one) =
              skip_locked_outcome y u (throw resource_locked_exception) x
                (sym (ap skip_locked called) ∙ e) in
            elim one [
              | inl (skipped, _) ↦ inl (skipped, ended called world refl)
              | inr (never, same) ↦ absurd (never (sym same))
            ]
        | failed y n called ↦
            let (world, one) =
              skip_locked_outcome y u (throw (other n)) x (sym (ap skip_locked called) ∙ e) in
            elim one [
              | inl (skipped, same) ↦ absurd (other_unlocked n _ _ refl refl same)
              | inr (never, same) ↦ inr (inl (n, sym same, ended called world refl))
            ]
        | ran v v' y r held m called ↦
            let (world, one) = skip_locked_outcome y u r x (sym (ap skip_locked called) ∙ e) in
            elim one [
              | inl (skipped, same) ↦ inl (skipped, ended called world same)
              | inr (never, same) ↦ inr (
                  inr (
                    never,
                    ended called world same,
                    (v, v', held, m ∙ ap (λ (z : Result (Option Value)). (v', z)) same),
                  ))
            ]
      ]

module _ {W Args Value : Type 0} where
  -- A call with an argument that `String` cannot turn into a text, such as an object without a
  -- prototype, throws a TypeError although nothing is logged: the lock is not asked for, and neither
  -- the service nor the method is run.
  pub unprintable_argument_throws :
      (texts : Args → List (Option Text)) (method_name : Text)
      (services : List (String × LockService W Value)) (service : LockService W Value)
      (o : DistributionLockOptions Args) (method : Args → Action W Value) (args : Args) (k : String)
      (before after : List (Option Text)) (w : W)
      → lock_service o.provider services ≡ some service
      → lock_key o.key args ≡ ok k
      → texts args ≡ before ++ none ∷ after
      → wrap_method_with_distribution_lock texts method_name services o method args w
        ≡ (w, throw type_error)
  unfolding wrap_method_with_distribution_lock stringify_method
  unprintable_argument_throws texts method_name services service o method args k before after w
        named composed unprintable =
      ap (λ q. wrapped texts method_name q o method args w) named
      ∙ ap
          (λ q. guarded service o.ttl (method args) q (stringify_method method_name (texts args)) w)
          composed
      ∙ ap (λ l. guarded service o.ttl (method args) (ok k) (in_brackets method_name l) w)
          (ap all_texts unprintable ∙ all_texts-none before after)
