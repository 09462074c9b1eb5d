-- ===== src/Orders/Mongoose.antt =====
-- example/transactional-mongoose/src/order.service.ts: `OrderService`, whose methods are decorated one
-- by one.
use nestplatform.Base.{ℕ, String, Option, none, some, Bool, List, if◌then◌else◌}
use nestplatform.Base.Int.{ℤ}
use nestplatform.Transaction.Rollback.{Err, single, named}
use nestplatform.Transaction.World.{Call, pure, raise, ◌>>=◌, ◌>>◌}
use nestplatform.Transaction.Adapter.{requires_new, nested, mongoose_execute}
use nestplatform.Transaction.Publisher.{Listeners, publish}
use nestplatform.Transaction.Decoration.{Method, TransactionAdapters, one, provided, Explorer}
use nestplatform.Transaction.Metadata.{undecorated, transactional_decorator, event_decorator}
use nestplatform.Orders.{
  Database, run_statement, with_propagation, with_rollback_on_error, nothing_explored,
  decorated_method, explored_listeners, explored_method,
}

-- The calls of the model: a new order, with its status if one is given, is saved.
pub data Statement : Type 0 where
  save : String → ℤ → Option String → Statement
  increment_amount : ℕ → ℤ → Statement

abbrev pub forced_rollback : Err
forced_rollback = record { name = "Error"; constructor_name = "Error"; tag = 1 }

-- The error whose name is set, or the other one.
abbrev pub conditional_error : Bool → Err
conditional_error should_type_match =
    if should_type_match
    then record { name = "BusinessException"; constructor_name = "Error"; tag = 2 }
    else record { name = "Error"; constructor_name = "Error"; tag = 3 }

module _ (db : Database Statement) where
  unfoldable pub create_order : Method (String × ℤ)
  create_order self (product, amount) store = run_statement db self store (save product amount none)

  unfoldable pub create_order_requires_new : Method (String × ℤ)
  create_order_requires_new self (product, amount) store =
      run_statement db self store (save product amount (some "requires_new"))

  unfoldable pub create_order_with_rollback : Method (String × ℤ)
  create_order_with_rollback self (product, amount) store = do
    run_statement db self store (save product amount (some "should_rollback"))
    raise forced_rollback

  unfoldable pub create_order_with_conditional_rollback : Method (String × ℤ × Bool)
  create_order_with_conditional_rollback self (product, amount, should_type_match) store = do
    run_statement db self store (save product amount (some "conditional_rollback"))
    raise (conditional_error should_type_match)

  unfoldable pub create_order_declarative : Method (String × ℤ)
  create_order_declarative self (product, amount) store =
      run_statement db self store (save product amount (some "declarative"))

  -- It only logs.
  unfoldable pub create_audit_log : Method (ℕ × String)
  create_audit_log self args store = pure db.undefined_value

  unfoldable pub adjust_order_amount : Method (ℕ × ℤ)
  adjust_order_amount self (id, adjustment) store = do
    run_statement db self store (increment_amount id adjustment)
    pure db.undefined_value

  unfoldable pub notify : Method ℕ
  notify self order store = pure db.undefined_value

  module _ (faults : List Call → Call → Option Err) where
    unfoldable pub create_order_with_event : Listeners → Method (String × ℤ)
    create_order_with_event listeners self (product, amount) store = do
      order ← run_statement db self store (save product amount none)
      publish faults listeners store "order.created" order
      pure order

    -- The module's adapters: the Mongoose adapter alone.
    abbrev pub adapters : TransactionAdapters
    adapters =
        provided
          (one (record { execute = λ store callback. mongoose_execute faults store callback }))

    -- The class has no decorator of its own.
    unfoldable pub explored : Explorer
    unfolding explored_listeners
    explored = explored_listeners faults adapters notify nothing_explored

    -- The methods as they stand on the instance, with their decorators.
    unfoldable pub installed_create_order : Method (String × ℤ)
    unfolding explored_method explored
    installed_create_order =
        explored_method faults adapters explored
          (decorated_method create_order (transactional_decorator none undecorated))

    unfoldable pub installed_create_order_with_event : Method (String × ℤ)
    unfolding explored_method explored
    installed_create_order_with_event = explored_method faults adapters explored (
        decorated_method (create_order_with_event explored.listeners)
          (transactional_decorator none undecorated))

    unfoldable pub installed_create_order_requires_new : Method (String × ℤ)
    unfolding explored_method explored
    installed_create_order_requires_new = explored_method faults adapters explored (
        decorated_method create_order_requires_new
          (transactional_decorator (some (with_propagation requires_new)) undecorated))

    unfoldable pub installed_create_order_with_rollback : Method (String × ℤ)
    unfolding explored_method explored
    installed_create_order_with_rollback =
        explored_method faults adapters explored
          (decorated_method create_order_with_rollback (transactional_decorator none undecorated))

    unfoldable pub installed_create_order_with_conditional_rollback : Method (String × ℤ × Bool)
    unfolding explored_method explored
    installed_create_order_with_conditional_rollback = explored_method faults adapters explored (
        decorated_method create_order_with_conditional_rollback (
          transactional_decorator
            (some (with_rollback_on_error (single (named "BusinessException")))) undecorated))

    unfoldable pub installed_create_order_declarative : Method (String × ℤ)
    unfolding explored_method explored
    installed_create_order_declarative = explored_method faults adapters explored (
        decorated_method create_order_declarative
          (event_decorator "order.created" none undecorated))

    unfoldable pub installed_create_audit_log : Method (ℕ × String)
    unfolding explored_method explored
    installed_create_audit_log = explored_method faults adapters explored (
        decorated_method create_audit_log
          (transactional_decorator (some (with_propagation requires_new)) undecorated))

    unfoldable pub installed_adjust_order_amount : Method (ℕ × ℤ)
    unfolding explored_method explored
    installed_adjust_order_amount = explored_method faults adapters explored (
        decorated_method adjust_order_amount
          (transactional_decorator (some (with_propagation nested)) undecorated))
