-- ===== src/Transaction/Adapter/Faultless.antt =====
-- Hooks and driver calls where none throws, and what a failing one leaves of the calls before.
use nestplatform.Base.{
  ℕ, ◌≡◌, refl, ap, sym, ◌∙◌, Option, none, List, [], ◌∷◌, ◌++◌, inl, inr, Bool-cases, Option-cases,
}
use nestplatform.Transaction.Rollback.{Err}
use nestplatform.Transaction.World.{
  TransactionPhase, after_rollback, after_completion, TransactionSynchronization, deferred, custom,
  same_phase, hook, Call, rollback, release, World, Result, ok, throw, raise, then_do, log, perform,
  run_hook, invoke_each, invoke, ending,
}
use nestplatform.Transaction.Adapter.{roll_back_and_notify}
use nestplatform.Transaction.Adapter.Traces.{
  log_all, log_all-append, log_all-nil, phase_calls, hook_calls, invoke_each_keeps, then_do_keeps,
}

-- No call throws.
abbrev pub Quiet : (List Call → Call → Option Err) → Type 0
Quiet faults = (cs : List Call) (c : Call) → faults cs c ≡ none

module _ (faults : List Call → Call → Option Err) where
  pub ending_world :
      {T : Type 0} (c : Result T) (y : World × Result (Unit {0})) → (ending c y).0 ≡ y.0
  ending_world c (w, ok a) = refl
  ending_world c (w, throw e) = refl

  module _ (quiet : Quiet faults) where
    run_hook_quiet :
        (p : TransactionPhase) (s : TransactionSynchronization) (w : World)
        → run_hook faults p s w ≡ (log_all (hook_calls p s) w, ok tt)
    run_hook_quiet p (deferred q l payload) w = elim (Bool-cases (same_phase q p)) [
      | inl now ↦ rw now
      | inr later ↦ rw later (ap (λ z. (z, ok tt)) (sym (log_all-nil w)))
    ]
    run_hook_quiet p (custom s has) w = elim (Bool-cases (has p)) [
      | inl now ↦ rw (now, quiet w.calls (hook p s))
      | inr later ↦ rw later (ap (λ z. (z, ok tt)) (sym (log_all-nil w)))
    ]

    pub invoke_each_quiet :
        (p : TransactionPhase) (ss : List TransactionSynchronization) (w : World)
        → invoke_each faults p ss w ≡ (log_all (phase_calls p ss) w, ok tt)
    unfolding invoke_each
    invoke_each_quiet p [] w = ap (λ z. (z, ok tt)) (sym (log_all-nil w))
    invoke_each_quiet p (s ∷ ss) w =
        ap (λ x. then_do x (λ _. invoke_each faults p ss)) (run_hook_quiet p s w)
        ∙ invoke_each_quiet p ss (log_all (hook_calls p s) w)
        ∙ ap (λ z. (z, ok tt)) (log_all-append (hook_calls p s) (phase_calls p ss) w)

    -- One driver call and the hooks of two phases.
    pub notify_quiet :
        (r : ℕ) (c : Call) (p q : TransactionPhase) (w : World)
        → then_do
            (perform faults c w)
            (λ _. λ u. then_do (invoke faults r p u) (λ _. invoke faults r q))
          ≡ (
            log_all
                (c ∷ (phase_calls p (w.synchronizations r) ++ phase_calls q (w.synchronizations r)))
                w,
            ok tt,
          )
    unfolding invoke
    notify_quiet r c p q w = rw (quiet w.calls c) (
        ap (λ x. then_do x (λ _. λ z. invoke_each faults q (z.synchronizations r) z))
          (invoke_each_quiet p (w.synchronizations r) (log c w))
        ∙ invoke_each_quiet q (w.synchronizations r)
            (log_all (phase_calls p (w.synchronizations r)) (log c w))
        ∙ ap (λ z. (z, ok tt))
            (log_all-append (phase_calls p (w.synchronizations r))
                (phase_calls q (w.synchronizations r)) (log c w)
              ∙ log_all-append (c ∷ [])
                  (phase_calls p (w.synchronizations r) ++ phase_calls q (w.synchronizations r)) w))

    pub released_quiet :
        {T : Type 0} (r : ℕ) (c : Result T) (cs : List Call) (u : World)
        → ending c (perform faults (release r) (log_all cs u))
          ≡ (log_all (cs ++ release r ∷ []) u, c)
    released_quiet r c cs u =
        rw (quiet (log_all cs u).calls (release r))
          (ap (λ z. (z, c)) (log_all-append cs (release r ∷ []) u))

  pub invoke_keeps :
      (r : ℕ) (p : TransactionPhase) (w : World)
      → (cs : List Call) × ((invoke faults r p w).0 ≡ log_all cs w)
  unfolding invoke
  invoke_keeps r p w = invoke_each_keeps faults p (w.synchronizations r) w

  pub roll_back_keeps :
      (r : ℕ) (w : World)
      → (cs : List Call) × ((roll_back_and_notify faults r w).0 ≡ log_all (rollback r ∷ cs) w)
  unfolding roll_back_and_notify
  roll_back_keeps r w = elim (Option-cases (faults w.calls (rollback r))) [
    | inl done ↦
        let (cs, e) =
          then_do_keeps faults [] (log (rollback r) w, ok tt)
            (λ _. λ u.
              then_do (invoke faults r after_rollback u) (λ _. invoke faults r after_completion))
            (log (rollback r) w) (sym (log_all-nil (log (rollback r) w)))
            (λ u.
              let (ds, h) = invoke_keeps r after_rollback u in
              then_do_keeps faults ds (invoke faults r after_rollback u)
                (λ _. invoke faults r after_completion) u h (invoke_keeps r after_completion)) in
        (cs, rw done (e ∙ log_all-append (rollback r ∷ []) cs w))
    | inr (x, fails) ↦ ([], rw fails)
  ]

  pub raise_world :
      {A : Type 0} (B : Type 0) (e : Err) (y : World × Result A)
      → (then_do y (λ _. raise {A = B} e)).0 ≡ y.0
  raise_world B e (w, ok a) = refl
  raise_world B e (w, throw x) = refl
