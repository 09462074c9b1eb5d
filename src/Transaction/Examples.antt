-- ===== src/Transaction/Examples.antt =====
-- The theorems on transactions at concrete inputs: drivers that never throw, or whose hooks do.
use nestplatform.Base.{
  ℕ, ◌≡◌, ◌≢◌, ◌↔◌, refl, Option, none, some, Bool, true, false, List, [], ◌∷◌, ◌++◌, if◌then◌else◌,
}
use nestplatform.Transaction.Rollback.{
  Err, named, RollbackOnError, not_given, several, is_truthy, is_true, typeorm_should_rollback,
  mongoose_should_rollback, decide_rollback,
}
use nestplatform.Transaction.Rollback.Matching.{AsksRollback, should_rollback_iff}
use nestplatform.Transaction.World.{
  TransactionPhase, before_commit, after_commit, after_rollback, Call, connect, start, commit,
  rollback, release, hook, custom, World, ok, throw, M, log, same_phase, invoke, invoke_each, ◌>>◌,
  pure,
}
use nestplatform.Transaction.Adapter.{
  TransactionPropagation, required, TransactionExecuteOptions, typeorm_execute, by_propagation,
  execute_required, run_in_new_transaction, transact, try_block, commit_and_notify,
}
use nestplatform.Transaction.Adapter.Traces.{log_all}
use nestplatform.Transaction.Adapter.Failures.{transact_rolls_back_committed}
use nestplatform.Transaction.Adapter.Propagation.{begun, CommitsAfter, typeorm_execute_returns}
use nestplatform.Transaction.Publisher.{TransactionalListenerMetadata, Listeners, publish}
use nestplatform.Transaction.Adapter.{requires_new}
use nestplatform.Transaction.Adapter.Nesting.{opened, runs_then_throws, requires_new_survives}

abbrev failure : Err
failure = record { name = "PaymentError"; constructor_name = "PaymentError"; tag = 1 }

abbrev no_faults : List Call → Call → Option Err
no_faults before c = none

abbrev is_hook : Call → Bool
is_hook (hook p s) = true
is_hook _ = false

abbrev failing_hooks : List Call → Call → Option Err
failing_hooks before c = if is_hook c then some failure else none

abbrev nowhere : World
nowhere = record { calls = []; synchronizations = λ r. []; next_runner = 0 }

-- One custom synchronization with a method for after the commit.
abbrev hooked : World
hooked = record {
  calls = [];
  synchronizations = λ r. custom 7 (λ p. same_phase p after_commit) ∷ [];
  next_runner = 1;
}

abbrev with_propagation : TransactionPropagation → TransactionExecuteOptions
with_propagation p = record { propagation = p; isolation = none; rollback_on_error = not_given }

abbrev gives_5 : Option ℕ → M ℕ
gives_5 store w = (w, ok 5)

abbrev fails : Option ℕ → M ℕ
fails store w = (w, throw failure)

abbrev always_open : List Call → ℕ → Bool
always_open cs r = false

abbrev one_name : List Call → ℕ
one_name cs = 1

abbrev after_typeorm : World
after_typeorm =
    (typeorm_execute no_faults always_open one_name none gives_5 (with_propagation required)
      nowhere).0

typeorm_execute_calls : after_typeorm.calls ≡ connect 0 ∷ start 0 none ∷ commit 0 ∷ release 0 ∷ []
unfolding typeorm_execute by_propagation execute_required run_in_new_transaction transact try_block
    commit_and_notify invoke invoke_each
typeorm_execute_calls = refl

typeorm_execute_returns_example :
    CommitsAfter 0 (gives_5 (some 0)) (begun (connect 0) (start 0 none) nowhere) after_typeorm 5
unfolding typeorm_execute by_propagation execute_required run_in_new_transaction transact try_block
    commit_and_notify invoke invoke_each
typeorm_execute_returns_example =
    typeorm_execute_returns no_faults gives_5 (with_propagation required) always_open one_name none
      nowhere after_typeorm 5 tt refl

transact_rolls_back_committed_example :
    (between rest : List Call) × ((transact failing_hooks 0
        (λ e. some true)
        (gives_5 none)
        hooked).0.calls
      ≡ commit 0 ∷ (between ++ rollback 0 ∷ rest))
    × ((w' : World) (y : ℕ)
        → transact failing_hooks 0 (λ e. some true) (gives_5 none) hooked ≢ (w', ok y))
unfolding invoke invoke_each
transact_rolls_back_committed_example =
    transact_rolls_back_committed failing_hooks 0 (λ e. some true) (gives_5 none) hooked hooked
      hooked (log (hook after_commit 7) (log (commit 0) hooked)) 5 failure refl refl refl refl refl

abbrev by_name : RollbackOnError
by_name = several (named "PaymentError" ∷ [])

should_rollback_iff_example :
    (((typeorm_should_rollback failure by_name ≡ some true)
        ↔ AsksRollback is_truthy failure by_name)
      × ((typeorm_should_rollback failure by_name ≡ some false)
          ↔ (¬ AsksRollback is_truthy failure by_name)))
    × (((mongoose_should_rollback failure by_name ≡ some true)
          ↔ AsksRollback is_true failure by_name)
        × ((mongoose_should_rollback failure by_name ≡ some false)
            ↔ (¬ AsksRollback is_true failure by_name)))
should_rollback_iff_example = should_rollback_iff failure by_name (tt, tt)

abbrev listener_for : Option TransactionPhase → ℕ → TransactionalListenerMetadata
listener_for p callback = record {
  event = "paid";
  phase = p;
  fallback_execution = none;
  callback = callback;
}

abbrev three_listeners : Listeners
three_listeners =
    (
      "paid",
      listener_for none 1
          ∷ listener_for (some after_rollback) 2
          ∷ listener_for (some before_commit) 3
          ∷ [],
    )
    ∷ []

abbrev after_publish : World
after_publish =
    (transact no_faults 0 (λ e. some true)
      (publish no_faults three_listeners (some 0) "paid" 9 >> pure {A = ℕ} 5) nowhere).0

-- An audit record in a transaction of its own, inside one that fails.
requires_new_survives_example :
    typeorm_execute no_faults always_open one_name none
      (runs_then_throws no_faults always_open one_name {T = ℕ} gives_5
        (with_propagation requires_new)
        failure)
      (with_propagation required)
      nowhere
    ≡ (
      log_all (rollback 0 ∷ release 0 ∷ []) (
          log_all
            (commit 1 ∷ release 1 ∷ [])
            (opened (with_propagation requires_new) (opened (with_propagation required) nowhere))),
      throw failure,
    )
unfolding typeorm_should_rollback decide_rollback
requires_new_survives_example =
    requires_new_survives no_faults always_open one_name gives_5 (with_propagation requires_new)
      failure (with_propagation required) none nowhere
      (opened (with_propagation requires_new) (opened (with_propagation required) nowhere)) 5
      (λ cs c. refl) tt refl refl refl
