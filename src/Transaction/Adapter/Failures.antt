-- ===== src/Transaction/Adapter/Failures.antt =====
-- How a transaction ends when its callback, a hook or the decision to roll back throws.
use nestplatform.Base.{
  ℕ, ◌≡◌, ◌≢◌, ap, sym, ◌∙◌, Option, none, some, Bool, true, false, List, [], ◌∷◌, ◌++◌,
  append_assoc, if◌then◌else◌,
}
use nestplatform.Transaction.Rollback.{Err, type_error}
use nestplatform.Transaction.World.{
  before_commit, after_commit, after_rollback, after_completion, Call, commit, rollback, release,
  World, Result, ok, throw, M, raise, then_do, log, perform, invoke, ending, caught,
}
use nestplatform.Transaction.Adapter.{
  commit_and_notify, roll_back_and_notify, try_block, catch_block, transact,
}
use nestplatform.Transaction.Adapter.Traces.{log_all, log_all-append, phase_calls}
use nestplatform.Transaction.Adapter.Endings.{
  commit_calls, rollback_calls, ending_ok, catch_block_throws,
}
use nestplatform.Transaction.Adapter.Faultless.{
  Quiet, ending_world, invoke_each_quiet, notify_quiet, released_quiet, invoke_keeps,
  roll_back_keeps, raise_world,
}

module _ (faults : List Call → Call → Option Err) where
  module _ {T : Type 0} (r : ℕ) (should_rollback : Err → Option Bool) (callback : M T) where
    -- Whatever the callback does and whatever throws, a transaction that has started ends with the
    -- release of its runner.
    pub transact_releases :
        (w : World)
        → (cs : List Call) × ((transact faults r should_rollback callback w).0.calls
            ≡ cs ++ release r ∷ [])
    unfolding transact
    transact_releases w =
        let y = caught (try_block faults r callback w) (catch_block faults r should_rollback) in
        (
          y.0.calls,
          ap (λ (z : World). z.calls) (ending_world faults y.1 (perform faults (release r) y.0)),
        )

    try_block_throws :
        (w u : World) (e : Err)
        → callback w ≡ (u, throw e)
        → try_block faults r callback w ≡ (u, throw e)
    unfolding try_block
    try_block_throws w u e h =
        ap
          (λ x. then_do x (λ result. λ z.
            then_do (invoke faults r before_commit z)
              (λ _. λ v. then_do (commit_and_notify faults r v) (λ _. λ t. (t, ok result)))))
          h

    -- If the decision throws for the callback's error, the driver is asked neither to commit nor to
    -- roll back: the runner is released with its transaction open, and the caller gets the TypeError
    -- in place of the callback's error.
    pub transact_undecided :
        (w u : World) (e : Err)
        → callback w ≡ (u, throw e)
        → should_rollback e ≡ none
        → faults u.calls (release r) ≡ none
        → transact faults r should_rollback callback w ≡ (log (release r) u, throw type_error)
    unfolding transact catch_block
    transact_undecided w u e h undecided released =
        rw (try_block_throws w u e h, undecided, released)

    -- If the callback throws and no other call does, the driver is asked to roll back, or to commit,
    -- as the decision says, once and before the hooks of that ending; the runner is then released,
    -- and the callback's error goes on to the caller.
    pub transact_throws :
        (w u : World) (e : Err) (roll_back : Bool)
        → Quiet faults
        → callback w ≡ (u, throw e)
        → should_rollback e ≡ some roll_back
        → transact faults r should_rollback callback w ≡ (
          log_all
              ((if roll_back
                  then rollback_calls r (u.synchronizations r)
                  else commit_calls r (u.synchronizations r))
                ++ release r ∷ [])
              u,
          throw e,
        )
    unfolding transact catch_block roll_back_and_notify commit_and_notify
    transact_throws w u e true quiet h decision =
        rw
          (
            try_block_throws w u e h,
            decision,
            notify_quiet faults quiet r (rollback r) after_rollback after_completion u,
          )
          (released_quiet faults quiet r (throw e) (rollback_calls r (u.synchronizations r)) u)
    transact_throws w u e false quiet h decision =
        rw
          (
            try_block_throws w u e h,
            decision,
            notify_quiet faults quiet r (commit r) after_commit after_completion u,
          )
          (released_quiet faults quiet r (throw e) (commit_calls r (u.synchronizations r)) u)

    -- If the callback returns a value and no call throws, the transaction returns that value, and
    -- after the callback the driver and the hooks are called in this order: the hooks for before the
    -- commit, one commit, the hooks for after the commit and for after completion, and the release.
    pub transact_commits :
        (w u : World) (x : T)
        → Quiet faults
        → callback w ≡ (u, ok x)
        → transact faults r should_rollback callback w ≡ (
          log_all
              ((phase_calls before_commit (u.synchronizations r)
                  ++ commit_calls r (u.synchronizations r))
                ++ release r ∷ [])
              u,
          ok x,
        )
    unfolding transact try_block commit_and_notify invoke
    transact_commits w u x quiet h =
        let before = phase_calls before_commit (u.synchronizations r) in
        rw
          (
            h,
            invoke_each_quiet faults quiet before_commit (u.synchronizations r) u,
            notify_quiet faults quiet r (commit r) after_commit after_completion (log_all before u),
          )
          (ap (λ z. ending (ok x) (perform faults (release r) z))
              (log_all-append before (commit_calls r (u.synchronizations r)) u)
            ∙ released_quiet faults quiet r (ok x) (before ++ commit_calls r (u.synchronizations r))
                u)

    -- If the callback returns and the commit succeeds, but a hook after the commit throws an error
    -- that the decision rolls back for, the driver is asked to roll back the transaction that it
    -- has committed already, and the caller never gets the callback's value.
    pub transact_rolls_back_committed :
        (w u v z : World) (x : T) (e : Err)
        → callback w ≡ (u, ok x)
        → invoke faults r before_commit u ≡ (v, ok tt)
        → faults v.calls (commit r) ≡ none
        → invoke faults r after_commit (log (commit r) v) ≡ (z, throw e)
        → should_rollback e ≡ some true
        → (between rest : List Call) × ((transact faults r should_rollback callback w).0.calls
            ≡ v.calls ++ (commit r ∷ (between ++ rollback r ∷ rest)))
          × ((w' : World) (y : T) → transact faults r should_rollback callback w ≢ (w', ok y))
    unfolding transact catch_block try_block commit_and_notify
    transact_rolls_back_committed w u v z x e called before committed after decision =
        let (between, hooks) = invoke_keeps faults r after_commit (log (commit r) v) in
        let (rest, rolled) = roll_back_keeps faults r z in
        let at_hook : try_block faults r callback w ≡ (z, throw e) =
          rw (called, before, committed, after) in
        let after_hook : z ≡ log_all between (log (commit r) v) =
          sym (ap (λ (y : World × Result (Unit {0})). y.0) after) ∙ hooks in
        (
          between,
          rest ++ release r ∷ [],
          rw (at_hook, decision)
              (ap (λ (y : World). y.calls)
                  (ending_world faults _ (
                    perform faults (release r)
                      (then_do (roll_back_and_notify faults r z) (λ _. raise {A = T} e)).0))
                ∙ ap (λ (y : World). y.calls ++ release r ∷ [])
                    (raise_world faults T e (roll_back_and_notify faults r z)
                      ∙ rolled
                      ∙ ap (log_all (rollback r ∷ rest)) after_hook)
                ∙ simp append_assoc),
          λ w' y returned.
              let c =
                caught (try_block faults r callback w) (catch_block faults r should_rollback) in
              let (value, _) =
                ending_ok faults c.1 (perform faults (release r) c.0) w' y returned in
              catch_block_throws faults r should_rollback callback e z c.0 y (
                sym (ap (λ t. caught t (catch_block faults r should_rollback)) at_hook)
                ∙ ap (λ (q : Result T). (c.0, q)) value),
        )
