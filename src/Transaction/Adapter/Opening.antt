-- ===== src/Transaction/Adapter/Opening.antt =====
-- A new transaction of the TypeORM adapter, and one of the Mongoose adapter that throws, from the
-- first call to the last, where no call throws.
use nestplatform.Base.{ℕ, ◌≡◌, Option, none, some, Bool, List, [], ◌∷◌, ◌++◌, if◌then◌else◌}
use nestplatform.Transaction.Rollback.{Err, typeorm_should_rollback, mongoose_should_rollback}
use nestplatform.Transaction.World.{
  before_commit, Call, connect, start_session, start, release, World, ok, throw, M, log,
}
use nestplatform.Transaction.Adapter.{
  TransactionExecuteOptions, create_runner, run_in_new_transaction, run_in_new_session,
}
use nestplatform.Transaction.Adapter.Traces.{log_all, phase_calls}
use nestplatform.Transaction.Adapter.Endings.{commit_calls, rollback_calls}
use nestplatform.Transaction.Adapter.Failures.{transact_commits, transact_throws}
use nestplatform.Transaction.Adapter.Faultless.{Quiet}
use nestplatform.Transaction.Adapter.Propagation.{begun}

module _ (faults : List Call → Call → Option Err) {T : Type 0} (callback : Option ℕ → M T)
    (o : TransactionExecuteOptions) where
  pub new_transaction_commits :
      (w u : World) (x : T)
      → Quiet faults
      → callback
          (some w.next_runner)
          (begun (connect w.next_runner) (start w.next_runner o.isolation) w)
        ≡ (u, ok x)
      → run_in_new_transaction faults callback o w ≡ (
        log_all
            ((phase_calls before_commit (u.synchronizations w.next_runner)
                ++ commit_calls w.next_runner (u.synchronizations w.next_runner))
              ++ release w.next_runner ∷ [])
            u,
        ok x,
      )
  unfolding run_in_new_transaction
  new_transaction_commits w u x quiet h =
      let r = w.next_runner in
      rw
        (
          quiet w.calls (connect r),
          quiet (log (connect r) (create_runner w).0).calls (start r o.isolation),
        )
        (transact_commits faults r (λ e. typeorm_should_rollback e o.rollback_on_error)
          (callback (some r)) (begun (connect r) (start r o.isolation) w) u x quiet h)

  pub new_transaction_throws :
      (w u : World) (e : Err) (b : Bool)
      → Quiet faults
      → callback
          (some w.next_runner)
          (begun (connect w.next_runner) (start w.next_runner o.isolation) w)
        ≡ (u, throw e)
      → typeorm_should_rollback e o.rollback_on_error ≡ some b
      → run_in_new_transaction faults callback o w ≡ (
        log_all
            ((if b
                then rollback_calls w.next_runner (u.synchronizations w.next_runner)
                else commit_calls w.next_runner (u.synchronizations w.next_runner))
              ++ release w.next_runner ∷ [])
            u,
        throw e,
      )
  unfolding run_in_new_transaction
  new_transaction_throws w u e b quiet h decision =
      let r = w.next_runner in
      rw
        (
          quiet w.calls (connect r),
          quiet (log (connect r) (create_runner w).0).calls (start r o.isolation),
        )
        (transact_throws faults r (λ x. typeorm_should_rollback x o.rollback_on_error)
          (callback (some r)) (begun (connect r) (start r o.isolation) w) u e b quiet h decision)

  pub new_session_throws :
      (w u : World) (e : Err) (b : Bool)
      → Quiet faults
      → callback
          (some w.next_runner)
          (begun (start_session w.next_runner) (start w.next_runner none) w)
        ≡ (u, throw e)
      → mongoose_should_rollback e o.rollback_on_error ≡ some b
      → run_in_new_session faults callback o w ≡ (
        log_all
            ((if b
                then rollback_calls w.next_runner (u.synchronizations w.next_runner)
                else commit_calls w.next_runner (u.synchronizations w.next_runner))
              ++ release w.next_runner ∷ [])
            u,
        throw e,
      )
  unfolding run_in_new_session
  new_session_throws w u e b quiet h decision =
      let r = w.next_runner in
      rw
        (
          quiet w.calls (start_session r),
          quiet (log (start_session r) (create_runner w).0).calls (start r none),
        )
        (transact_throws faults r (λ x. mongoose_should_rollback x o.rollback_on_error)
          (callback (some r)) (begun (start_session r) (start r none) w) u e b quiet h decision)
