-- ===== src/Redlock/Holding/Invariant.antt =====
-- What holds at every moment of `withLock`, whatever the order in which timers fire, extensions settle
-- and the handler ends.
use mathlib.Core.Path.{subst}
use nestplatform.Base.{
  ℕ, suc, ◌+◌, ◌≤◌, ◌≡◌, ap, sym, ◌∙◌, inl, inr, String, Option, none, true, false, List, [], ◌∷◌,
  arith, Bool-cases, if◌then◌else◌,
}
use nestplatform.Base.Int.{ℤ, ltb_ℤ}
use nestplatform.Redlock.Execute.{
  RedlockConfig, ExecutionResult, Thrown, Outcome, returned, threw, never_settles, out_of_fuel,
  already_expired, invalid_threshold,
}
use nestplatform.Redlock.Cluster.{extending, releasing}
use nestplatform.Redlock.Service.Validity.{rethrow_throws}
use nestplatform.Redlock.Service.{
  millis, RedLock, Override, no_override, once_only, or_else, Runtime, execute_with, acquire,
  acquired, extend, extended,
}
use nestplatform.Redlock.Holding.{
  Phase, running, releasing, finished, LockEvent, Holding, begin, timer_fires, extension_succeeds,
  extension_fails, handler_settles, release_settles, begun, with_lock, threshold_reached, Step,
  fires, extends, fails, settles, releases, Steps, here, next,
}

-- The events of a phase.
abbrev pub events_of : Phase → List LockEvent
events_of running = LockEvent.acquired ∷ []
events_of releasing = LockEvent.acquired ∷ []
events_of finished = LockEvent.acquired ∷ LockEvent.released ∷ []

pub record Inv (ks : List String) (v : String) (h : Holding) : Type 0 where
  -- At most one extension is scheduled or under way, and the flag tells of the second.
  pub one_extension : h.armed + h.in_flight ≤ 1
  pub flag_set : h.extending ≡ true → h.in_flight ≡ 1
  pub flag_unset : h.extending ≡ false → h.in_flight ≡ 0
  -- While the handler runs and nothing failed, there is one; after a failure there is none.
  pub renewing : h.phase ≡ running → h.signal.aborted ≡ false → h.armed + h.in_flight ≡ 1
  pub given_up : h.signal.aborted ≡ true → h.armed + h.in_flight ≡ 0
  -- `signal.error` is never set.
  pub no_error : h.signal.error ≡ none
  pub events : h.emitted ≡ events_of h.phase
  -- The handle is one of the lock that was acquired.
  pub same_resources : h.lock.resources ≡ ks
  pub same_value : h.lock.value ≡ v

begin-Inv :
    (ks : List String) (v : String) (lock : RedLock)
    → lock.resources ≡ ks
    → lock.value ≡ v
    → Inv ks v (begin lock)
unfolding begin
begin-Inv ks v lock r s = ground arith

module _ (ks : List String) (v : String) where
  timer_fires-Inv : (h : Holding) (n : ℕ) → h.armed ≡ suc n → Inv ks v h → Inv ks v (timer_fires h)
  unfolding timer_fires
  timer_fires-Inv h n e i = ground arith

  extension_succeeds-Inv :
      (h : Holding) (n : ℕ) (new : RedLock)
      → h.in_flight ≡ suc n
      → new.resources ≡ h.lock.resources
      → new.value ≡ h.lock.value
      → Inv ks v h
      → Inv ks v (extension_succeeds new h)
  unfolding extension_succeeds
  extension_succeeds-Inv h n new e r w i = ground arith

  extension_fails-Inv :
      (h : Holding) (n : ℕ) (e : Thrown)
      → h.in_flight ≡ suc n
      → Inv ks v h
      → Inv ks v (extension_fails e h)
  unfolding extension_fails
  extension_fails-Inv h n e x i = ground arith

  pub handler_settles-Inv :
      (h : Holding) → h.phase ≡ running → Inv ks v h → Inv ks v (handler_settles h)
  unfolding handler_settles
  handler_settles-Inv h e i = ground arith

  release_settles-Inv :
      (h : Holding) → h.phase ≡ releasing → Inv ks v h → Inv ks v (release_settles h)
  unfolding release_settles
  release_settles-Inv h e i = ground arith

module _ (t : Runtime) (config : RedlockConfig) where
  open t use {W, fresh, now}

  extended_keeps :
      (lock old new : RedLock) (d : ℤ) (o : Override) (x : Outcome ExecutionResult W) (w' : W)
      → extended t config lock d o x ≡ (old, returned new w')
      → (new.resources ≡ lock.resources) × (new.value ≡ lock.value)
  extended_keeps lock old new d o (returned r u) w' h = ground arith
  extended_keeps lock old new d o (threw x u) w' h = cc
  extended_keeps lock old new d o never_settles w' h = cc
  extended_keeps lock old new d o out_of_fuel w' h = cc

  -- A successful extension is one of the same resources and value.
  pub extend_keeps :
      (lock old new : RedLock) (d : ℤ) (o : Override) (fuel : ℕ) (w w' : W)
      → extend t config lock (millis d) o fuel w ≡ (old, returned new w')
      → (new.resources ≡ lock.resources) × (new.value ≡ lock.value)
  unfolding extend
  extend_keeps lock old new d o fuel w w' h = elim (Bool-cases (ltb_ℤ lock.expiration (now w))) [
    | inl expired ↦ absurd (ground arith)
    | inr valid ↦
        extended_keeps lock old new d o
          (execute_with t config (extending lock.value d) lock.resources o fuel w) w'
          (sym (
              ap
                (λ b.
                  if b
                  then (lock, threw already_expired w)
                  else extended t config lock d o
                      (execute_with t config (extending lock.value d) lock.resources o fuel w))
                valid)
            ∙ h)
  ]

  acquired_keeps :
      (rs : List String) (v : String) (o : Override) (d : ℤ) (fuel : ℕ)
      (x : Outcome ExecutionResult W) (lock : RedLock) (w' : W)
      → acquired t config rs v o d fuel x ≡ returned lock w'
      → (lock.resources ≡ rs) × (lock.value ≡ v)
  acquired_keeps rs v o d fuel (returned r u) lock w' h = ground arith
  acquired_keeps rs v o d fuel (threw x u) lock w' h = absurd (
      rethrow_throws t config x (execute_with t config (releasing v) rs once_only fuel u) w' lock h)
  acquired_keeps rs v o d fuel never_settles lock w' h = cc
  acquired_keeps rs v o d fuel out_of_fuel lock w' h = cc

  module _ (d : ℤ) (fuel : ℕ) (ks : List String) (v : String) where
    pub Step-Inv : {h h' : Holding} → Step t config d fuel h h' → Inv ks v h → Inv ks v h'
    Step-Inv (fires h n armed) i = timer_fires-Inv ks v h n armed i
    Step-Inv (extends h n old new w w' flying extended_to) i =
        let (r, s) = extend_keeps h.lock old new d no_override fuel w w' extended_to in
        extension_succeeds-Inv ks v h n new flying r s i
    Step-Inv (fails h n old e w w' flying failed) i = extension_fails-Inv ks v h n e flying i
    Step-Inv (settles h phase) i = handler_settles-Inv ks v h phase i
    Step-Inv (releases h phase) i = release_settles-Inv ks v h phase i

    pub Steps-Inv : {h h' : Holding} → Steps t config d fuel h h' → Inv ks v h → Inv ks v h'
    Steps-Inv (here h) i = i
    Steps-Inv (next h m h' s rest) i = Steps-Inv rest (Step-Inv s i)

  begun_returned :
      (x : Outcome RedLock W) (h : Holding) (w' : W)
      → begun t config x ≡ returned h w'
      → (lock : RedLock) × (x ≡ returned lock w') × (begin lock ≡ h)
  begun_returned (returned lock u) h w' e = (lock, ground arith, ground arith)
  begun_returned (threw y u) h w' e = cc
  begun_returned never_settles h w' e = cc
  begun_returned out_of_fuel h w' e = cc

  -- From when the lock is acquired on, in whatever order timers fire, extensions succeed or fail and
  -- the handler ends: at most one extension is scheduled or under way; while the handler runs there
  -- is one, unless an extension failed, and after a failure there is none; the handle is of the
  -- resources that were asked for and of the value that was drawn; `released` is emitted after
  -- `acquired`, once, when the release has settled; and `signal.error` is not set, even after a
  -- failure.
  pub with_lock-Inv :
      (rs : List String) (d : ℤ) (threshold : Option ℕ) (o : Override) (fuel : ℕ) (w w' : W)
      (h h' : Holding)
      → with_lock t config rs (millis d) threshold o fuel w ≡ returned h w'
      → Steps t config d fuel h h'
      → Inv rs (fresh w).0 h'
  unfolding with_lock acquire
  with_lock-Inv rs d threshold o fuel w w' h h' e steps =
      elim (Bool-cases
        (threshold_reached t config (or_else threshold config.automatic_extension_threshold) d)) [
          | inl rejected ↦ absurd (ground arith)
          | inr accepted ↦
              let (lock, acquires, start) =
                begun_returned (acquire t config rs (millis d) o fuel w) h w' (
                  sym (
                    ap
                      (λ b.
                        if b
                        then threw invalid_threshold w
                        else begun t config (acquire t config rs (millis d) o fuel w))
                      accepted)
                  ∙ e) in
              let (r, v) = acquired_keeps rs (fresh w).0 o d fuel _ lock w' acquires in
              Steps-Inv d fuel rs (fresh w).0 steps
                (subst (Inv rs (fresh w).0) start (begin-Inv rs (fresh w).0 lock r v))
        ]
