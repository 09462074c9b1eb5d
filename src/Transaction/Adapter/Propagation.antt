-- ===== src/Transaction/Adapter/Propagation.antt =====
-- `execute` of the two adapters: a new transaction from its first call to its last, and a savepoint
-- in a transaction that is there already.
use nestplatform.Base.{
  ℕ, ◌≡◌, refl, ap, sym, ◌∙◌, Option, none, some, Bool, false, List, [], ◌∷◌, ◌++◌, if◌then◌else◌,
}
use nestplatform.Transaction.Rollback.{Err, typeorm_should_rollback, mongoose_should_rollback}
use nestplatform.Transaction.World.{
  before_commit, Call, connect, start_session, start, release, savepoint, release_savepoint,
  rollback_to_savepoint, World, ok, throw, M, log, perform,
}
use nestplatform.Transaction.Adapter.{
  TransactionPropagation, required, requires_new, nested, TransactionExecuteOptions, create_runner,
  transact, run_in_new_transaction, run_in_new_session, in_savepoint, execute_required,
  execute_nested, by_propagation, typeorm_execute, mongoose_required, mongoose_by_propagation,
  mongoose_execute,
}
use nestplatform.Transaction.Adapter.Traces.{log_all, phase_calls, then_do_ok}
use nestplatform.Transaction.Adapter.Endings.{commit_calls, transact_returns, perform_ok}
use nestplatform.Transaction.Adapter.Faultless.{Quiet}

-- The world in which a new transaction's callback runs: a runner of its own, with an empty store.
abbrev pub begun : Call → Call → World → World
begun first second w = log second (log first (create_runner w).0)

-- An operation that returns `x` ran the callback in `v`, and after it made exactly the calls that
-- commit the runner `r`, with the synchronizations registered by then.
abbrev pub CommitsAfter : {T : Type 0} → ℕ → M T → World → World → T → Type 0
CommitsAfter r callback v w' x =
    (u : World) × (callback v ≡ (u, ok x))
    × (w'
        ≡ log_all
            (phase_calls before_commit (u.synchronizations r)
              ++ (commit_calls r (u.synchronizations r) ++ release r ∷ []))
            u)

-- Where the adapter opens a transaction of its own.
abbrev pub StartsNew : TransactionPropagation → Option ℕ → Type 0
StartsNew required none = Unit
StartsNew required (some r) = ⊥
StartsNew requires_new store = Unit
StartsNew nested none = Unit
StartsNew nested (some r) = ⊥

module _ (faults : List Call → Call → Option Err) {T : Type 0} (callback : Option ℕ → M T)
    (o : TransactionExecuteOptions) where
  new_transaction_returns :
      (w w' : World) (x : T)
      → run_in_new_transaction faults callback o w ≡ (w', ok x)
      → CommitsAfter w.next_runner
          (callback (some w.next_runner))
          (begun (connect w.next_runner) (start w.next_runner o.isolation) w)
          w'
          x
  unfolding run_in_new_transaction
  new_transaction_returns w w' x h =
      let r = w.next_runner in
      let w1 = (create_runner w).0 in
      let (u, _, connected, rest) = then_do_ok (perform faults (connect r) w1) _ w' x h in
      let (v, _, started, rest') =
        then_do_ok (perform faults (start r o.isolation) u) _ w' x rest in
      let same : v ≡ begun (connect r) (start r o.isolation) w =
        perform_ok faults (start r o.isolation) u v started
        ∙ ap (log (start r o.isolation)) (perform_ok faults (connect r) w1 u connected) in
      transact_returns faults r (λ e. typeorm_should_rollback e o.rollback_on_error)
        (callback (some r)) (begun (connect r) (start r o.isolation) w) w' x
        (sym (
            ap
              (transact faults r (λ e. typeorm_should_rollback e o.rollback_on_error)
                (callback (some r)))
              same)
          ∙ rest')

  new_session_returns :
      (w w' : World) (x : T)
      → run_in_new_session faults callback o w ≡ (w', ok x)
      → CommitsAfter w.next_runner
          (callback (some w.next_runner))
          (begun (start_session w.next_runner) (start w.next_runner none) w)
          w'
          x
  unfolding run_in_new_session
  new_session_returns w w' x h =
      let r = w.next_runner in
      let w1 = (create_runner w).0 in
      let (u, _, connected, rest) = then_do_ok (perform faults (start_session r) w1) _ w' x h in
      let (v, _, started, rest') = then_do_ok (perform faults (start r none) u) _ w' x rest in
      let same : v ≡ begun (start_session r) (start r none) w =
        perform_ok faults (start r none) u v started
        ∙ ap (log (start r none)) (perform_ok faults (start_session r) w1 u connected) in
      transact_returns faults r (λ e. mongoose_should_rollback e o.rollback_on_error)
        (callback (some r)) (begun (start_session r) (start r none) w) w' x
        (sym (
            ap
              (transact faults r (λ e. mongoose_should_rollback e o.rollback_on_error)
                (callback (some r)))
              same)
          ∙ rest')

  module _ (is_released : List Call → ℕ → Bool) (savepoint_name : List Call → ℕ) where
    pub by_propagation_new :
        (p : TransactionPropagation) (store : Option ℕ)
        → StartsNew p store
        → by_propagation faults is_released savepoint_name p store callback o
          ≡ run_in_new_transaction faults callback o
    unfolding by_propagation execute_required execute_nested
    by_propagation_new required none s = refl
    by_propagation_new required (some r) s = absurd s
    by_propagation_new requires_new store s = refl
    by_propagation_new nested none s = refl
    by_propagation_new nested (some r) s = absurd s

    -- REQUIRED and NESTED outside a transaction, and REQUIRES_NEW anywhere, open a new transaction
    -- in the TypeORM adapter. If the operation returns a value, the callback returned it in the
    -- context of the new runner, after connect and start; and after the callback come exactly the
    -- before-commit calls, one commit, the after-commit and after-completion calls and the release.
    pub typeorm_execute_returns :
        (store : Option ℕ) (w w' : World) (x : T)
        → StartsNew o.propagation store
        → typeorm_execute faults is_released savepoint_name store callback o w ≡ (w', ok x)
        → CommitsAfter w.next_runner
            (callback (some w.next_runner))
            (begun (connect w.next_runner) (start w.next_runner o.isolation) w)
            w'
            x
    unfolding typeorm_execute
    typeorm_execute_returns store w w' x s h =
        new_transaction_returns w w' x
          (sym (ap (λ (m : M T). m w) (by_propagation_new o.propagation store s)) ∙ h)

    -- NESTED in a transaction whose runner is not released, when no call throws and the callback
    -- returns: the callback runs behind a savepoint of that runner, which is then released. No other
    -- call is made: the transaction around it is neither committed nor rolled back.
    pub typeorm_execute_nested_returns :
        (r : ℕ) (w u : World) (x : T)
        → Quiet faults
        → is_released w.calls r ≡ false
        → callback (some r) (log (savepoint r (savepoint_name w.calls)) w) ≡ (u, ok x)
        → o.propagation ≡ nested
        → typeorm_execute faults is_released savepoint_name (some r) callback o w
          ≡ (log (release_savepoint r (savepoint_name w.calls)) u, ok x)
    unfolding typeorm_execute by_propagation execute_nested in_savepoint
    typeorm_execute_nested_returns r w u x quiet open_runner called is_nested = rw (
      is_nested,
      by_propagation,
      open_runner,
      quiet w.calls (savepoint r (savepoint_name w.calls)),
      called,
      quiet u.calls (release_savepoint r (savepoint_name w.calls)),
    )

    -- NESTED in a transaction whose runner is not released, when no call throws but the callback
    -- does: the savepoint is rolled back to, or released, as the decision says, and the error goes
    -- on. No other call is made.
    pub typeorm_execute_nested_throws :
        (r : ℕ) (w u : World) (e : Err) (b : Bool)
        → Quiet faults
        → is_released w.calls r ≡ false
        → callback (some r) (log (savepoint r (savepoint_name w.calls)) w) ≡ (u, throw e)
        → typeorm_should_rollback e o.rollback_on_error ≡ some b
        → o.propagation ≡ nested
        → typeorm_execute faults is_released savepoint_name (some r) callback o w ≡ (
          log
              (if b
                then rollback_to_savepoint r (savepoint_name w.calls)
                else release_savepoint r (savepoint_name w.calls))
              u,
          throw e,
        )
    unfolding typeorm_execute by_propagation execute_nested in_savepoint
    typeorm_execute_nested_throws r w u e b quiet open_runner called decision is_nested = rw (
      is_nested,
      by_propagation,
      open_runner,
      quiet w.calls (savepoint r (savepoint_name w.calls)),
      called,
      decision,
      quiet u.calls (
          if b
          then rollback_to_savepoint r (savepoint_name w.calls)
          else release_savepoint r (savepoint_name w.calls)),
    )

  mongoose_by_propagation_new :
      (p : TransactionPropagation) (store : Option ℕ)
      → StartsNew p store
      → mongoose_by_propagation faults p store callback o ≡ run_in_new_session faults callback o
  unfolding mongoose_by_propagation mongoose_required
  mongoose_by_propagation_new required none s = refl
  mongoose_by_propagation_new required (some r) s = absurd s
  mongoose_by_propagation_new requires_new store s = refl
  mongoose_by_propagation_new nested none s = refl
  mongoose_by_propagation_new nested (some r) s = absurd s

  -- REQUIRED and NESTED outside a transaction, and REQUIRES_NEW anywhere, open a new session in the
  -- Mongoose adapter. If the operation returns a value, the callback returned it in the context of the
  -- new session, after the session and its transaction were started; and after the callback come
  -- exactly the before-commit calls, one commit, the after-commit and after-completion calls and the
  -- end of the session.
  pub mongoose_execute_returns :
      (store : Option ℕ) (w w' : World) (x : T)
      → StartsNew o.propagation store
      → mongoose_execute faults store callback o w ≡ (w', ok x)
      → CommitsAfter w.next_runner
          (callback (some w.next_runner))
          (begun (start_session w.next_runner) (start w.next_runner none) w)
          w'
          x
  unfolding mongoose_execute
  mongoose_execute_returns store w w' x s h =
      new_session_returns w w' x
        (sym (ap (λ (m : M T). m w) (mongoose_by_propagation_new o.propagation store s)) ∙ h)
