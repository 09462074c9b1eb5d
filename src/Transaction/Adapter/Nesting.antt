-- ===== src/Transaction/Adapter/Nesting.antt =====
-- A new transaction inside another one.
use nestplatform.Base.{ℕ, ◌≡◌, ap, ◌∙◌, Option, some, Bool, true, List, [], ◌∷◌, ◌++◌}
use nestplatform.Transaction.Rollback.{Err, typeorm_should_rollback}
use nestplatform.Transaction.World.{
  before_commit, Call, connect, start, release, World, ok, throw, M, ◌>>◌, raise, then_do,
}
use nestplatform.Transaction.Adapter.{
  requires_new, TransactionExecuteOptions, run_in_new_transaction, typeorm_execute,
}
use nestplatform.Transaction.Adapter.Traces.{log_all, phase_calls}
use nestplatform.Transaction.Adapter.Endings.{commit_calls, rollback_calls}
use nestplatform.Transaction.Adapter.Faultless.{Quiet}
use nestplatform.Transaction.Adapter.Propagation.{begun, StartsNew, by_propagation_new}
use nestplatform.Transaction.Adapter.Opening.{new_transaction_commits, new_transaction_throws}

-- The world in which the callback of a new transaction begins.
abbrev pub opened : TransactionExecuteOptions → World → World
opened o w = begun (connect w.next_runner) (start w.next_runner o.isolation) w

module _ (faults : List Call → Call → Option Err) (is_released : List Call → ℕ → Bool)
    (savepoint_name : List Call → ℕ) where
  execute_new :
      {T : Type 0} (store : Option ℕ) (callback : Option ℕ → M T) (o : TransactionExecuteOptions)
      (w : World)
      → StartsNew o.propagation store
      → typeorm_execute faults is_released savepoint_name store callback o w
        ≡ run_in_new_transaction faults callback o w
  unfolding typeorm_execute
  execute_new {T} store callback o w new =
      ap (λ (m : M T). m w)
        (by_propagation_new faults callback o is_released savepoint_name o.propagation store new)

  module _ {S T : Type 0} (inner : Option ℕ → M S) (p : TransactionExecuteOptions) (e : Err) where
    -- A callback that runs another one in a transaction of its own, and then throws.
    abbrev pub runs_then_throws : Option ℕ → M T
    runs_then_throws store = do
      typeorm_execute faults is_released savepoint_name store inner p
      raise e

    -- A transaction runs an operation with the propagation REQUIRES_NEW, which returns, and then
    -- throws an error that is rolled back for; no call throws. What the inner operation did is
    -- committed, on a runner of its own and before the outer transaction is rolled back; and the
    -- caller gets the error.
    pub requires_new_survives :
        (o : TransactionExecuteOptions) (store : Option ℕ) (w u : World) (x : S)
        → Quiet faults
        → StartsNew o.propagation store
        → p.propagation ≡ requires_new
        → inner (some (opened o w).next_runner) (opened p (opened o w)) ≡ (u, ok x)
        → typeorm_should_rollback e o.rollback_on_error ≡ some true
        → typeorm_execute faults is_released savepoint_name store runs_then_throws o w ≡ (
          log_all
              (rollback_calls w.next_runner (u.synchronizations w.next_runner)
                ++ release w.next_runner ∷ [])
              (log_all
                ((phase_calls before_commit (u.synchronizations (opened o w).next_runner)
                    ++ commit_calls
                        (opened o w).next_runner
                        (u.synchronizations (opened o w).next_runner))
                  ++ release (opened o w).next_runner ∷ [])
                u),
          throw e,
        )
    requires_new_survives o store w u x quiet new is_new called decision =
        let r = w.next_runner in
        let inside =
          execute_new (some r) inner p (opened o w) (rw is_new tt)
          ∙ new_transaction_commits faults inner p (opened o w) u x quiet called in
        execute_new store runs_then_throws o w new
        ∙ new_transaction_throws faults runs_then_throws o w _ e true quiet
            (ap (λ y. then_do y (λ _. raise {A = T} e)) inside) decision
