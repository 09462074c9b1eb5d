-- ===== src/Transaction/Adapter.antt =====
-- `TypeOrmTransactionAdapter` of packages/transactional-typeorm/src/index.ts and
-- `MongooseTransactionAdapter` of packages/transactional-mongoose/src/index.ts. A callback is told
-- the store of its context (`none` outside a transaction) and may itself run transactions.
pub mod Traces
pub mod Endings
pub mod Faultless
pub mod Failures
pub mod Propagation
pub mod Opening
pub mod Nesting
use nestplatform.Base.{
  ℕ, suc, ◌+◌, Option, none, some, Bool, true, false, List, [], ◌∷◌, ◌++◌, ◌==◌, if◌then◌else◌,
}
use nestplatform.Transaction.Rollback.{
  Err, type_error, RollbackOnError, typeorm_should_rollback, mongoose_should_rollback,
}
use nestplatform.Transaction.World.{
  TransactionPhase, before_commit, after_commit, after_rollback, after_completion,
  TransactionIsolation, Call, connect, start_session, start, commit, rollback, release, savepoint,
  release_savepoint, rollback_to_savepoint, World, Result, ok, throw, M, pure, raise, ◌>>=◌, ◌>>◌,
  then_do, catch, finally, perform, invoke,
}

pub data TransactionPropagation : Type 0 where
  required requires_new nested : TransactionPropagation

pub record TransactionExecuteOptions : Type 0 where
  pub propagation : TransactionPropagation
  pub isolation : Option TransactionIsolation
  pub rollback_on_error : RollbackOnError

-- A decision that threw raises a `TypeError` in place of the error at hand.
abbrev pub decided : Option Bool → M Bool
decided none w = (w, throw type_error)
decided (some b) w = (w, ok b)

-- A new runner or session, and with it an empty store.
abbrev pub create_runner : M ℕ
create_runner w = (
  record w {
    next_runner = suc w.next_runner;
    synchronizations = λ q. if w.next_runner == q then [] else w.synchronizations q;
  },
  ok w.next_runner,
)

module _ (faults : List Call → Call → Option Err) where
  unfoldable pub commit_and_notify : ℕ → M (Unit {0})
  commit_and_notify r = do
    perform faults (commit r)
    invoke faults r after_commit
    invoke faults r after_completion

  unfoldable pub roll_back_and_notify : ℕ → M (Unit {0})
  roll_back_and_notify r = do
    perform faults (rollback r)
    invoke faults r after_rollback
    invoke faults r after_completion

module _ (faults : List Call → Call → Option Err) {T : Type 0} where
  -- The `try` block of a new transaction: the callback, and then the commit.
  unfoldable pub try_block : ℕ → M T → M T
  unfolding commit_and_notify
  try_block r callback = do
    result ← callback
    invoke faults r before_commit
    commit_and_notify faults r
    pure result

  -- Its `catch` block.
  unfoldable pub catch_block : ℕ → (Err → Option Bool) → Err → M T
  unfolding commit_and_notify roll_back_and_notify
  catch_block r should_rollback e = do
    roll_back ← decided (should_rollback e)
    if roll_back then roll_back_and_notify faults r else commit_and_notify faults r
    raise e

  -- The transaction once it has started, with the `finally` that releases the runner.
  unfoldable pub transact : ℕ → (Err → Option Bool) → M T → M T
  unfolding try_block catch_block
  transact r should_rollback callback =
      finally (catch (try_block r callback) (catch_block r should_rollback))
        (perform faults (release r))

  -- `runInNewTransaction` of the TypeORM adapter.
  unfoldable pub run_in_new_transaction : (Option ℕ → M T) → TransactionExecuteOptions → M T
  unfolding transact
  run_in_new_transaction callback o = do
    r ← create_runner
    perform faults (connect r)
    perform faults (start r o.isolation)
    transact r (λ e. typeorm_should_rollback e o.rollback_on_error) (callback (some r))

  -- `runInNewSession` of the Mongoose adapter; `session.startTransaction()` takes no isolation.
  unfoldable pub run_in_new_session : (Option ℕ → M T) → TransactionExecuteOptions → M T
  unfolding transact
  run_in_new_session callback o = do
    r ← create_runner
    perform faults (start_session r)
    perform faults (start r none)
    transact r (λ e. mongoose_should_rollback e o.rollback_on_error) (callback (some r))

  -- The `try` and `catch` of a savepoint.
  unfoldable pub in_savepoint : ℕ → ℕ → (Err → Option Bool) → M T → M T
  in_savepoint r name should_rollback callback =
      catch (do result ← callback; perform faults (release_savepoint r name); pure result)
        (λ e. do
          roll_back ← decided (should_rollback e)
          perform faults
              (if roll_back then rollback_to_savepoint r name else release_savepoint r name)
          raise e)

  module _ (is_released : List Call → ℕ → Bool) (savepoint_name : List Call → ℕ) where
    unfoldable pub execute_required : Option ℕ → (Option ℕ → M T) → TransactionExecuteOptions → M T
    unfolding run_in_new_transaction
    execute_required none callback o = run_in_new_transaction callback o
    execute_required (some r) callback o = callback (some r)

    unfoldable pub execute_nested : Option ℕ → (Option ℕ → M T) → TransactionExecuteOptions → M T
    unfolding run_in_new_transaction in_savepoint
    execute_nested none callback o w = run_in_new_transaction callback o w
    execute_nested (some r) callback o w =
        if is_released w.calls r
        then run_in_new_transaction callback o w
        else then_do (perform faults (savepoint r (savepoint_name w.calls)) w) (λ _.
          in_savepoint r (savepoint_name w.calls)
            (λ e. typeorm_should_rollback e o.rollback_on_error) (callback (some r)))

    unfoldable pub by_propagation :
        TransactionPropagation → Option ℕ → (Option ℕ → M T) → TransactionExecuteOptions → M T
    unfolding execute_required execute_nested
    by_propagation required store callback o = execute_required store callback o
    by_propagation requires_new store callback o = run_in_new_transaction callback o
    by_propagation nested store callback o = execute_nested store callback o

    -- `execute` of the TypeORM adapter, in the context of a store or of none.
    unfoldable pub typeorm_execute : Option ℕ → (Option ℕ → M T) → TransactionExecuteOptions → M T
    unfolding by_propagation
    typeorm_execute store callback o = by_propagation o.propagation store callback o

  unfoldable pub mongoose_required : Option ℕ → (Option ℕ → M T) → TransactionExecuteOptions → M T
  unfolding run_in_new_session
  mongoose_required none callback o = run_in_new_session callback o
  mongoose_required (some r) callback o = callback (some r)

  unfoldable pub mongoose_by_propagation :
      TransactionPropagation → Option ℕ → (Option ℕ → M T) → TransactionExecuteOptions → M T
  unfolding mongoose_required
  mongoose_by_propagation required store callback o = mongoose_required store callback o
  mongoose_by_propagation requires_new store callback o = run_in_new_session callback o
  mongoose_by_propagation nested store callback o = mongoose_required store callback o

  -- `execute` of the Mongoose adapter; NESTED falls back to REQUIRED.
  unfoldable pub mongoose_execute : Option ℕ → (Option ℕ → M T) → TransactionExecuteOptions → M T
  unfolding mongoose_by_propagation
  mongoose_execute store callback o = mongoose_by_propagation o.propagation store callback o
