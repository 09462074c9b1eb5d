-- ===== src/Orders/Typeorm.antt =====
-- example/transactional-typeorm/src/order.service.ts: `OrderService`, whose class is `@Transactional()`.
use nestplatform.Base.{ℕ, ◌+◌, String, Option, none, some, Bool, List}
use nestplatform.Base.Int.{ℤ, pos, ◌+ℤ◌}
use nestplatform.Transaction.Rollback.{Err, single, named}
use nestplatform.Transaction.World.{Call, M, pure, raise, ◌>>=◌, ◌>>◌}
use nestplatform.Transaction.Adapter.{requires_new, nested, typeorm_execute}
use nestplatform.Transaction.Publisher.{Listeners, publish}
use nestplatform.Transaction.Decoration.{
  Target, Method, TransactionAdapters, one, provided, Explorer, on_provider,
}
use nestplatform.Transaction.Metadata.{
  undecorated, transactional_decorator, no_transactional_decorator, event_decorator,
  get_transactional_metadata,
}
use nestplatform.Orders.{
  Database, run_statement, with_propagation, with_rollback_on_error, nothing_explored,
  decorated_method, order_service, explored_listeners, explored_method,
}

-- The calls of the repository: an order by its product, amount and status.
pub data Statement : Type 0 where
  save : String → ℤ → String → Statement
  update_status : ℕ → String → Statement
  update_amount : ℕ → ℤ → Statement
  insert_audit_log : ℕ → String → Statement
  find_one : ℕ → Statement
  find_all : Statement

pub record Orders : Type 0 where
  pub database : Database Statement
  -- The identifier of an order, and the amount of one; `null` has none.
  pub id_of : ℕ → ℕ
  pub amount_of : ℕ → Option ℤ

abbrev pub error_named : String → ℕ → Err
error_named name tag = record { name = name; constructor_name = name; tag = tag }

abbrev pub forced_rollback : Err
forced_rollback = error_named "Error" 1

abbrev pub business_exception : Err
business_exception = error_named "BusinessException" 2

abbrev pub order_not_found : ℕ → Err
order_not_found id = error_named "Error" (id + 3)

module _ (x : Orders) where
  unfoldable pub create_order_with_rollback : Method (String × ℤ)
  create_order_with_rollback self (product, amount) store = do
    run_statement x.database self store (save product amount "should_rollback")
    raise forced_rollback

  unfoldable pub create_order_declarative : Method (String × ℤ)
  create_order_declarative self (product, amount) store =
      run_statement x.database self store (save product amount "pending")

  unfoldable pub process_with_conditional_rollback : Method (Unit {0})
  process_with_conditional_rollback self args store = do
    run_statement x.database self store (save "Temp" (pos 10) "processing")
    raise business_exception

  -- `this.updateOrderStatus` is the method that stands on the instance.
  unfoldable pub create_order : Method (ℕ × String) → Method (String × ℤ)
  create_order update_order_status self (product, amount) store = do
    order ← run_statement x.database self store (save product amount "pending")
    update_order_status self (x.id_of order, "confirmed") store
    pure order

  unfoldable pub update_order_status : Method (ℕ × String)
  update_order_status self (id, status) store = do
    run_statement x.database self store (update_status id status)
    pure x.database.undefined_value

  unfoldable pub create_audit_log : Method (ℕ × String)
  create_audit_log self (id, action) store = do
    run_statement x.database self store (insert_audit_log id action)
    pure x.database.undefined_value

  unfoldable pub find_by_id : Method ℕ
  find_by_id self id store = run_statement x.database self store (find_one id)

  unfoldable pub find_all_orders : Method (Unit {0})
  find_all_orders self args store = run_statement x.database self store find_all

  abbrev pub adjusted : Target → Option ℕ → ℕ → ℤ → Option ℤ → M ℕ
  adjusted self store id adjustment none = raise (order_not_found id)
  adjusted self store id adjustment (some amount) = do
    run_statement x.database self store (update_amount id (amount +ℤ adjustment))
    pure x.database.undefined_value

  unfoldable pub adjust_order_amount : Method (ℕ × ℤ)
  adjust_order_amount self (id, adjustment) store = do
    order ← run_statement x.database self store (find_one id)
    adjusted self store id adjustment (x.amount_of order)

  -- The two listeners only log.
  unfoldable pub notify : Method ℕ
  notify self order store = pure x.database.undefined_value

  module _ (faults : List Call → Call → Option Err) where
    unfoldable pub create_order_with_event : Listeners → Method (String × ℤ)
    create_order_with_event listeners self (product, amount) store = do
      order ← run_statement x.database self store (save product amount "pending")
      publish faults listeners store "order.created" order
      pure order

    -- The module's adapters: the TypeORM adapter alone.
    abbrev pub app_adapters : (List Call → ℕ → Bool) → (List Call → ℕ) → TransactionAdapters
    app_adapters is_released savepoint_name = provided (
        one (record {
          execute =
              λ store callback. typeorm_execute faults is_released savepoint_name store callback;
        }))

    module _ (is_released : List Call → ℕ → Bool) (savepoint_name : List Call → ℕ) where
      abbrev adapters : TransactionAdapters
      adapters = app_adapters is_released savepoint_name

      -- The class is transactional.
      unfoldable pub explored : Explorer
      unfolding on_provider explored_listeners
      explored = explored_listeners faults adapters notify (
          on_provider order_service
            (get_transactional_metadata (transactional_decorator none undecorated))
            nothing_explored)

      -- The methods as they stand on the instance, with their own decorators.
      unfoldable pub installed_update_order_status : Method (ℕ × String)
      unfolding explored_method explored
      installed_update_order_status =
          explored_method faults adapters explored
            (decorated_method update_order_status undecorated)

      unfoldable pub installed_create_order : Method (String × ℤ)
      unfolding explored_method explored
      installed_create_order =
          explored_method faults adapters explored
            (decorated_method (create_order installed_update_order_status) undecorated)

      unfoldable pub installed_create_order_with_event : Method (String × ℤ)
      unfolding explored_method explored
      installed_create_order_with_event =
          explored_method faults adapters explored
            (decorated_method (create_order_with_event explored.listeners) undecorated)

      unfoldable pub installed_create_order_with_rollback : Method (String × ℤ)
      unfolding explored_method explored
      installed_create_order_with_rollback =
          explored_method faults adapters explored
            (decorated_method create_order_with_rollback undecorated)

      unfoldable pub installed_create_order_declarative : Method (String × ℤ)
      unfolding explored_method explored
      installed_create_order_declarative = explored_method faults adapters explored (
          decorated_method create_order_declarative
            (event_decorator "order.created" none undecorated))

      unfoldable pub installed_process_with_conditional_rollback : Method (Unit {0})
      unfolding explored_method explored
      installed_process_with_conditional_rollback = explored_method faults adapters explored (
          decorated_method process_with_conditional_rollback (
            transactional_decorator
              (some (with_rollback_on_error (single (named "BusinessException")))) undecorated))

      unfoldable pub installed_create_audit_log : Method (ℕ × String)
      unfolding explored_method explored
      installed_create_audit_log = explored_method faults adapters explored (
          decorated_method create_audit_log
            (transactional_decorator (some (with_propagation requires_new)) undecorated))

      unfoldable pub installed_adjust_order_amount : Method (ℕ × ℤ)
      unfolding explored_method explored
      installed_adjust_order_amount = explored_method faults adapters explored (
          decorated_method adjust_order_amount
            (transactional_decorator (some (with_propagation nested)) undecorated))

      unfoldable pub installed_find_by_id : Method ℕ
      unfolding explored_method explored
      installed_find_by_id =
          explored_method faults adapters explored
            (decorated_method find_by_id (no_transactional_decorator undecorated))

      unfoldable pub installed_find_all : Method (Unit {0})
      unfolding explored_method explored
      installed_find_all =
          explored_method faults adapters explored
            (decorated_method find_all_orders (no_transactional_decorator undecorated))
