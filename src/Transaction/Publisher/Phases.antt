-- ===== src/Transaction/Publisher/Phases.antt =====
-- When the listeners of a published event run.
use mathlib.Core.Path.{subst}
use nestplatform.Base.{
  ℕ, ◌≡◌, refl, ap, sym, ◌∙◌, String, Option, none, some, Bool, true, List, [], ◌∷◌, ◌++◌,
  append_assoc, append-nil, ==_iff, arith, inl, inr, Bool-cases, Option-cases, str_eq, str_eq_iff,
  if◌then◌else◌,
}
use nestplatform.Transaction.Rollback.{Err}
use nestplatform.Transaction.World.{
  TransactionPhase, before_commit, after_commit, after_rollback, after_completion, same_phase,
  deferred, TransactionSynchronization, Call, listener, commit, rollback, release, ◌>>◌, pure,
  raise, World, Result, ok, then_do,
}
use nestplatform.Transaction.Adapter.{transact}
use nestplatform.Transaction.Adapter.Traces.{
  log_all, log_all-nil, log_all-append, phase_calls, hook_calls,
}
use nestplatform.Transaction.Adapter.Endings.{transact_returns}
use nestplatform.Transaction.Adapter.Failures.{transact_throws}
use nestplatform.Transaction.Adapter.Faultless.{Quiet}
use nestplatform.Transaction.Publisher.{
  TransactionalListenerMetadata, Listeners, get_listeners, set_listeners, register_listener, listed,
  phase_of, falls_back, publish_to, publish_each, publish,
}

get-set_listeners :
    (e f : String) (ls : List TransactionalListenerMetadata) (m : Listeners)
    → get_listeners f (set_listeners e ls m) ≡ (if str_eq e f then some ls else get_listeners f m)
unfolding get_listeners set_listeners
get-set_listeners e f ls [] = refl
get-set_listeners e f ls ((g, old) ∷ m) =
    ground (arith, str_eq_iff e f, str_eq_iff g e, str_eq_iff g f, get-set_listeners e f ls m)

-- Registering a listener puts it behind those of its event, and changes no other event's.
pub get-register_listener :
    (l : TransactionalListenerMetadata) (e : String) (m : Listeners)
    → get_listeners e (register_listener l m) ≡ (
        if str_eq l.event e
        then some (listed (get_listeners l.event m) ++ l ∷ [])
        else get_listeners e m)
unfolding register_listener
get-register_listener l e m =
    get-set_listeners l.event e (listed (get_listeners l.event m) ++ l ∷ []) m

-- The listeners of a phase, in the order of registration.
abbrev pub phase_listeners : TransactionPhase → ℕ → List TransactionalListenerMetadata → List Call
phase_listeners p payload [] = []
phase_listeners p payload (l ∷ ls) =
    (if same_phase (phase_of l) p then listener l.callback payload ∷ [] else [])
    ++ phase_listeners p payload ls

-- The listeners that run where there is no transaction.
abbrev pub fallback_listeners : ℕ → List TransactionalListenerMetadata → List Call
fallback_listeners payload [] = []
fallback_listeners payload (l ∷ ls) =
    (if falls_back l.fallback_execution then listener l.callback payload ∷ [] else [])
    ++ fallback_listeners payload ls

abbrev pub deferrals : ℕ → List TransactionalListenerMetadata → List TransactionSynchronization
deferrals payload [] = []
deferrals payload (l ∷ ls) = deferred (phase_of l) l.callback payload ∷ deferrals payload ls

pub phase_calls-append :
    (p : TransactionPhase) (ss ts : List TransactionSynchronization)
    → phase_calls p (ss ++ ts) ≡ phase_calls p ss ++ phase_calls p ts
phase_calls-append p [] ts = refl
phase_calls-append p (s ∷ ss) ts =
    ap (◌++◌ (hook_calls p s)) (phase_calls-append p ss ts)
    ∙ sym (append_assoc (hook_calls p s) (phase_calls p ss) (phase_calls p ts))

pub phase_calls-deferrals :
    (p : TransactionPhase) (payload : ℕ) (ls : List TransactionalListenerMetadata)
    → phase_calls p (deferrals payload ls) ≡ phase_listeners p payload ls
phase_calls-deferrals p payload [] = refl
phase_calls-deferrals p payload (l ∷ ls) =
    ap (◌++◌ (hook_calls p (deferred (phase_of l) l.callback payload)))
      (phase_calls-deferrals p payload ls)

module _ (faults : List Call → Call → Option Err) where
  publish_each_outside :
      (payload : ℕ) (ls : List TransactionalListenerMetadata) (w : World)
      → publish_each faults none payload ls w ≡ (log_all (fallback_listeners payload ls) w, ok tt)
  unfolding publish_each
  publish_each_outside payload [] w = ap (λ z. (z, ok tt)) (sym (log_all-nil w))
  publish_each_outside payload (l ∷ ls) w = elim (Bool-cases (falls_back l.fallback_execution)) [
    | inl runs ↦ rw runs (
        publish_each_outside payload ls (log_all (listener l.callback payload ∷ []) w)
        ∙ ap (λ z. (z, ok tt))
            (log_all-append (listener l.callback payload ∷ []) (fallback_listeners payload ls) w))
    | inr waits ↦ rw waits (publish_each_outside payload ls w)
  ]

  -- What a publication in a transaction leaves: no call, and more synchronizations of its store.
  pub record Defers (r : ℕ) (payload : ℕ) (ls : List TransactionalListenerMetadata) (w w' : World)
      : Type 0 where
    pub quiet_so_far : w'.calls ≡ w.calls
    pub deferring : w'.synchronizations r ≡ w.synchronizations r ++ deferrals payload ls

  publish_each_inside :
      (r payload : ℕ) (ls : List TransactionalListenerMetadata) (w : World)
      → (w' : World) × (publish_each faults (some r) payload ls w ≡ (w', ok tt))
        × Defers r payload ls w w'
  unfolding publish_each
  publish_each_inside r payload [] w =
      (w, refl, record { quiet_so_far = refl; deferring = sym (append-nil (w.synchronizations r)) })
  publish_each_inside r payload (l ∷ ls) w =
      let w1 = (publish_to faults (some r) payload l w).0 in
      let (w', e, d) = publish_each_inside r payload ls w1 in
      (
        w',
        e,
        record {
          quiet_so_far = d.quiet_so_far;
          deferring =
              d.deferring
              ∙ rw ((==_iff r r).1 refl) (
                  append_assoc (w.synchronizations r)
                    (deferred (phase_of l) l.callback payload ∷ []) (deferrals payload ls));
        },
      )

  -- Without a transaction, publishing an event calls, at once and in the order of registration, its
  -- listeners but those whose fallback execution is switched off, and does nothing else.
  pub publish_outside :
      (m : Listeners) (event : String) (payload : ℕ) (w : World)
      → publish faults m none event payload w
        ≡ (log_all (fallback_listeners payload (listed (get_listeners event m))) w, ok tt)
  unfolding publish
  publish_outside m event payload w = elim (Option-cases (get_listeners event m)) [
    | inl missing ↦ rw (missing, publish) (ap (λ z. (z, ok tt)) (sym (log_all-nil w)))
    | inr (ls, found) ↦ rw (found, publish) (publish_each_outside payload ls w)
  ]

  pub publish_inside :
      (m : Listeners) (r : ℕ) (event : String) (payload : ℕ) (w : World)
      → (w' : World) × (publish faults m (some r) event payload w ≡ (w', ok tt))
        × Defers r payload (listed (get_listeners event m)) w w'
  unfolding publish
  publish_inside m r event payload w = elim (Option-cases (get_listeners event m)) [
    | inl missing ↦
        rw (missing, publish)
          (
            w,
            refl,
            record { quiet_so_far = refl; deferring = sym (append-nil (w.synchronizations r)) },
          )
    | inr (ls, found) ↦ rw (found, publish) (publish_each_inside r payload ls w)
  ]

  module _ (m : Listeners) (r : ℕ) (event : String) (payload : ℕ) (w : World)
      (fresh : w.synchronizations r ≡ []) where
    abbrev pub ls : List TransactionalListenerMetadata
    ls = listed (get_listeners event m)

    -- The phases of the one event that a transaction published.
    phase_of_event :
        (w' : World) (p : TransactionPhase)
        → Defers r payload ls w w'
        → phase_calls p (w'.synchronizations r) ≡ phase_listeners p payload ls
    phase_of_event w' p d =
        ap (phase_calls p) (d.deferring ∙ ap (λ ss. ss ++ deferrals payload ls) fresh)
        ∙ phase_calls-deferrals p payload ls

    -- A transaction that publishes one event and then returns a value calls the event's listeners
    -- in their phases only: those for before the commit, then the commit, then those for after the
    -- commit and for after completion, each once and in the order of registration; those for after a
    -- rollback are not called.
    pub publish_then_commit :
        {T : Type 0} (should_rollback : Err → Option Bool) (w' : World) (x y : T)
        → transact faults r should_rollback (publish faults m (some r) event payload >> pure x) w
          ≡ (w', ok y)
        → w'.calls
          ≡ w.calls
            ++ (phase_listeners before_commit payload ls
                ++ (commit r
                      ∷ (phase_listeners after_commit payload ls
                          ++ phase_listeners after_completion payload ls)
                    ++ release r ∷ []))
    publish_then_commit {T} should_rollback w' x y h =
        let (u, called, ends) =
          transact_returns faults r should_rollback
            (publish faults m (some r) event payload >> pure x) w w' y h in
        let (v, published, d) = publish_inside m r event payload w in
        let same : v ≡ u =
          ap (λ (z : World × Result T). z.0)
            (sym (ap (λ z. then_do z (λ _. pure x)) published) ∙ called) in
        let d' : Defers r payload ls w u = subst (Defers r payload ls w) same d in
        ap (λ (z : World). z.calls) ends
        ∙ rw (
          d'.quiet_so_far,
          phase_of_event u before_commit d',
          phase_of_event u after_commit d',
          phase_of_event u after_completion d',
        )

    -- If a transaction publishes one event and then throws an error that is rolled back, and no call
    -- throws, the listeners for after a rollback and for after completion are called, after the rollback,
    -- and those for before and after a commit are not.
    pub publish_then_roll_back :
        (T : Type 0) (should_rollback : Err → Option Bool) (e : Err)
        → Quiet faults
        → should_rollback e ≡ some true
        → (transact faults r should_rollback
            (publish faults m (some r) event payload >> raise {A = T} e)
            w).0.calls
          ≡ w.calls
            ++ (rollback r
                  ∷ (phase_listeners after_rollback payload ls
                      ++ phase_listeners after_completion payload ls)
                ++ release r ∷ [])
    publish_then_roll_back T should_rollback e quiet decision =
        let (v, published, d) = publish_inside m r event payload w in
        ap (λ (z : World × Result T). z.0.calls)
          (transact_throws faults r should_rollback
            (publish faults m (some r) event payload >> raise {A = T} e) w v e true quiet
            (ap (λ z. then_do z (λ _. raise {A = T} e)) published) decision)
        ∙ rw
            (d.quiet_so_far, phase_of_event v after_rollback d, phase_of_event v after_completion d)
