-- ===== src/Orders.antt =====
-- The order services of example/transactional-typeorm and example/transactional-mongoose: what they
-- share. Values are numbered, and so are the orders' identifiers; logging is left out.
pub mod Typeorm
pub mod Joining
pub mod Notifying
pub mod Mongoose
pub mod Deciding
mod Examples
use nestplatform.Base.{ℕ, Option, none, some, Bool, false, List, []}
use nestplatform.Common.Stringify.{Text}
use nestplatform.Transaction.World.{
  TransactionPhase, after_commit, after_rollback, Call, statement, M, Result, pure, log,
}
use nestplatform.Transaction.Decoration.{
  Target, itself, proxied, Field, missing, given, TransactionalOptions, TransactionalEvent,
  ListenerMetadata, Method, MethodContext, TransactionAdapters, Explorer, on_method,
}
use nestplatform.Transaction.Metadata.{
  Metadata, undecorated, no_options, event_listener_decorator, method_context,
}
use nestplatform.Transaction.Rollback.{Err, RollbackOnError}
use nestplatform.Transaction.Adapter.{TransactionPropagation}

-- A database behind a repository or a model: the number of a statement, and what it returns or
-- throws, given the calls before it and where it runs. `undefined_value` is the number of `undefined`.
pub record Database (Statement : Type 0) : Type 0 where
  pub number : Statement → ℕ
  pub result : List Call → Option ℕ → Statement → Result ℕ
  pub undefined_value : ℕ

-- Where a statement runs: a property that is read from the proxy of the service gives the repository
-- or the model of the transaction, one that is read from the service itself that of no transaction.
abbrev pub runner_of : Target → Option ℕ → Option ℕ
runner_of itself store = none
runner_of (proxied key) store = store

abbrev pub run_statement : {S : Type 0} → Database S → Target → Option ℕ → S → M ℕ
run_statement db self store s w = (
  log (statement (runner_of self store) (db.number s)) w,
  db.result w.calls (runner_of self store) s,
)

abbrev pub with_propagation : TransactionPropagation → TransactionalOptions
with_propagation p = record no_options { propagation = given p }

abbrev pub with_rollback_on_error : RollbackOnError → TransactionalOptions
with_rollback_on_error r = record no_options { rollback_on_error = given r }

-- `instance[methodName]` once the method has been explored.
abbrev pub in_place : {Args : Type 0} → Option (Method Args) → Method Args → Method Args
in_place none method = method
in_place (some f) method = f

-- Nothing has been explored.
abbrev pub nothing_explored : Explorer
nothing_explored = record { class_level_options = λ t. none; listeners = [] }

-- The service's class, and its two listeners.
abbrev pub order_service : ℕ
order_service = 0

abbrev pub on_order_created : ℕ
on_order_created = 1

abbrev pub on_order_failed : ℕ
on_order_failed = 2

-- A method of the service, with what its decorators leave.
abbrev pub decorated_method : {Args : Type 0} → Method Args → Metadata → MethodContext Args
decorated_method method m = method_context order_service method 0 m

abbrev pub listening : TransactionPhase → Metadata
listening p =
    event_listener_decorator "order.created"
      (some (record { phase = some p; fallback_execution = none })) undecorated

-- The text of a call is for the log alone; texts and numbers have one.
abbrev pub printed : {Args : Type 0} → Args → Option Text
printed args = some []

module _ (faults : List Call → Call → Option Err) (adapters : TransactionAdapters) where
  -- The explorer after the two listeners, in their order in the class.
  unfoldable pub explored_listeners : Method ℕ → Explorer → Explorer
  unfolding on_method
  explored_listeners notify class =
      let created = method_context order_service notify on_order_created (listening after_commit) in
      let failed = method_context order_service notify on_order_failed (listening after_rollback) in
      (on_method faults printed adapters [] failed
        (on_method faults printed adapters [] created class).0).0

  -- A method of the service once the explorer, in the state it ends in, has seen it.
  unfoldable pub explored_method : {Args : Type 0} → Explorer → MethodContext Args → Method Args
  unfolding on_method
  explored_method e c = in_place (on_method faults printed adapters e.listeners c e).1 c.method_ref
