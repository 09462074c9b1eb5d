-- ===== src/Transaction/Adapter/Endings.antt =====
-- How a transaction ends: which calls reach the driver after the callback, in which order.
use nestplatform.Base.{
  ℕ, ◌≡◌, ◌≢◌, ap, sym, ◌∙◌, Option, Bool, List, [], ◌∷◌, ◌++◌, append_assoc, arith, if◌then◌else◌,
}
use nestplatform.Transaction.Rollback.{Err}
use nestplatform.Transaction.World.{
  TransactionPhase, before_commit, after_commit, after_rollback, after_completion,
  TransactionSynchronization, Call, commit, rollback, release, World, Result, ok, throw, M, log,
  perform, invoke, ending, caught,
}
use nestplatform.Transaction.Adapter.{
  decided, commit_and_notify, roll_back_and_notify, try_block, catch_block, transact,
}
use nestplatform.Transaction.Adapter.Traces.{
  log_all, chain_phase, log_all-append, phase_calls, then_do_ok, invoke_each_ok,
}

-- The calls that commit a transaction with these synchronizations, and those that roll it back.
abbrev pub commit_calls : ℕ → List TransactionSynchronization → List Call
commit_calls r ss = commit r ∷ (phase_calls after_commit ss ++ phase_calls after_completion ss)

abbrev pub rollback_calls : ℕ → List TransactionSynchronization → List Call
rollback_calls r ss =
    rollback r ∷ (phase_calls after_rollback ss ++ phase_calls after_completion ss)

module _ (faults : List Call → Call → Option Err) where
  pub perform_ok : (c : Call) (w w' : World) → perform faults c w ≡ (w', ok tt) → w' ≡ log c w
  perform_ok c w w' h = sym (ap (λ (x : World × Result (Unit {0})). x.0) h)

  invoke_ok :
      (r : ℕ) (p : TransactionPhase) (w w' : World)
      → invoke faults r p w ≡ (w', ok tt)
      → w' ≡ log_all (phase_calls p (w.synchronizations r)) w
  unfolding invoke
  invoke_ok r p w w' h = invoke_each_ok faults p (w.synchronizations r) w w' h

  commit_and_notify_ok :
      (r : ℕ) (w w' : World)
      → commit_and_notify faults r w ≡ (w', ok tt)
      → w' ≡ log_all (commit_calls r (w.synchronizations r)) w
  unfolding commit_and_notify
  commit_and_notify_ok r w w' h =
      let (u, a, committed, rest) = then_do_ok (perform faults (commit r) w) _ w' tt h in
      let (v, b, after, last) = then_do_ok (invoke faults r after_commit u) _ w' tt rest in
      chain_phase r after_completion (commit r ∷ phase_calls after_commit (w.synchronizations r)) w
        v w'
        (chain_phase r after_commit (commit r ∷ []) w u v (perform_ok (commit r) w u committed)
          (invoke_ok r after_commit u v after))
        (invoke_ok r after_completion v w' last)

  chain_commit :
      (r : ℕ) (u v : World)
      → v ≡ log_all (phase_calls before_commit (u.synchronizations r)) u
      → log_all (commit_calls r (v.synchronizations r)) v
        ≡ log_all
            (phase_calls before_commit (u.synchronizations r)
              ++ commit_calls r (u.synchronizations r))
            u
  chain_commit r u v e =
      ap (λ (z : World). log_all (commit_calls r (z.synchronizations r)) z) e
      ∙ log_all-append (phase_calls before_commit (u.synchronizations r))
          (commit_calls r (u.synchronizations r)) u

  pub ending_ok :
      {T : Type 0} (c : Result T) (y : World × Result (Unit {0})) (w' : World) (x : T)
      → ending c y ≡ (w', ok x)
      → (c ≡ ok x) × (y ≡ (w', ok tt))
  ending_ok {T} c (w, ok a) w' x h =
      (ap (λ (z : World × Result T). z.1) h, ap (λ (z : World × Result T). (z.0, ok tt)) h)
  ending_ok c (w, throw e) w' x h = cc

  caught_ok :
      {T : Type 0} (y : World × Result T) (f : Err → M T) (w' : World) (x : T)
      → ((e : Err) (w : World) → f e w ≢ (w', ok x))
      → caught y f ≡ (w', ok x)
      → y ≡ (w', ok x)
  caught_ok (w, ok a) f w' x throws h = h
  caught_ok (w, throw e) f w' x throws h = absurd (throws e w h)

  module _ {T : Type 0} (r : ℕ) (should_rollback : Err → Option Bool) (callback : M T) where
    -- A transaction never turns an error into a value.
    pub catch_block_throws :
        (e : Err) (w w' : World) (x : T) → catch_block faults r should_rollback e w ≢ (w', ok x)
    unfolding catch_block
    catch_block_throws e w w' x h =
        let (u, b, chosen, rest) = then_do_ok (decided (should_rollback e) w) _ w' x h in
        let (v, c, ended, raised) =
          then_do_ok ((if b then roll_back_and_notify faults r else commit_and_notify faults r) u) _
            w' x rest in
        ground (arith, raised)

    try_block_ok :
        (w w' : World) (x : T)
        → try_block faults r callback w ≡ (w', ok x)
        → (u : World) × (callback w ≡ (u, ok x))
          × (w'
              ≡ log_all
                  (phase_calls before_commit (u.synchronizations r)
                    ++ commit_calls r (u.synchronizations r))
                  u)
    unfolding try_block
    try_block_ok w w' x h =
        let (u, a, called, rest) = then_do_ok (callback w) _ w' x h in
        let (v, b, before, rest') = then_do_ok (invoke faults r before_commit u) _ w' x rest in
        let (z, c, ended, same) = then_do_ok (commit_and_notify faults r v) _ w' x rest' in
        (
          u,
          called ∙ ap (λ (y : World × Result T). (u, y.1)) same,
          sym (ap (λ (y : World × Result T). y.0) same)
              ∙ commit_and_notify_ok r v z ended
              ∙ chain_commit r u v (invoke_ok r before_commit u v before),
        )

    -- The transaction has started in `w`. If it returns a value, the callback returned it, and what
    -- followed the callback is exactly: the before-commit calls, one commit that did not throw, the
    -- after-commit calls, the after-completion calls, and the release of the runner.
    pub transact_returns :
        (w w' : World) (x : T)
        → transact faults r should_rollback callback w ≡ (w', ok x)
        → (u : World) × (callback w ≡ (u, ok x))
          × (w'
              ≡ log_all
                  (phase_calls before_commit (u.synchronizations r)
                    ++ (commit_calls r (u.synchronizations r) ++ release r ∷ []))
                  u)
    unfolding transact
    transact_returns w w' x h =
        let y = caught (try_block faults r callback w) (catch_block faults r should_rollback) in
        let (returned, released) = ending_ok y.1 (perform faults (release r) y.0) w' x h in
        let (u, called, tail) = try_block_ok w y.0 x (
          caught_ok (try_block faults r callback w) (catch_block faults r should_rollback) y.0 x
            (λ e z. catch_block_throws e z y.0 x) (ap (λ (c : Result T). (y.0, c)) returned)) in
        (
          u,
          called,
          perform_ok (release r) y.0 w' released
              ∙ ap (log (release r)) tail
              ∙ log_all-append
                  (phase_calls before_commit (u.synchronizations r)
                    ++ commit_calls r (u.synchronizations r))
                  (release r ∷ []) u
              ∙ ap (λ cs. log_all cs u)
                  (append_assoc (phase_calls before_commit (u.synchronizations r))
                    (commit_calls r (u.synchronizations r)) (release r ∷ [])),
        )
