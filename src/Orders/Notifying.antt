-- ===== src/Orders/Notifying.antt =====
-- The listeners of the TypeORM order service, and its savepoints.
use nestplatform.Base.{
  ℕ, ◌≡◌, refl, ap, ◌∙◌, String, Option, none, some, Bool, true, false, List, [], ◌∷◌, ◌++◌,
  append_assoc, ==_refl,
}
use nestplatform.Base.Int.{ℤ}
use nestplatform.Transaction.Rollback.{Err, typeorm_should_rollback}
use nestplatform.Transaction.World.{
  Call, connect, start, commit, release, listener, statement, savepoint, rollback_to_savepoint,
  World, Result, ok, throw, log,
}
use nestplatform.Transaction.Adapter.{nested, run_in_new_transaction, typeorm_execute}
use nestplatform.Transaction.Adapter.Faultless.{Quiet}
use nestplatform.Transaction.Adapter.Nesting.{opened}
use nestplatform.Transaction.Adapter.Opening.{new_transaction_commits}
use nestplatform.Transaction.Adapter.Propagation.{typeorm_execute_nested_throws}
use nestplatform.Transaction.Publisher.{publish}
use nestplatform.Transaction.Decoration.{Target, proxied, execute_options, wrapper, on_method}
use nestplatform.Orders.{on_order_created, with_propagation}
use nestplatform.Transaction.Metadata.{no_options}
use nestplatform.Orders.Typeorm.{
  Statement, save, find_one, Orders, order_not_found, create_order_with_event,
  installed_create_order_with_event, adjust_order_amount, installed_adjust_order_amount, explored,
}

module _ (x : Orders) (faults : List Call → Call → Option Err) (is_released : List Call → ℕ → Bool)
    (savepoint_name : List Call → ℕ) where
  open x use {database, amount_of}

  module _ (self : Target) (product : String) (amount : ℤ) (w : World) where
    abbrev pub at_start : World
    at_start = opened (execute_options no_options) w

    abbrev pub saving : Statement
    saving = save product amount "pending"

    abbrev body : Option ℕ → World → World × Result ℕ
    body store =
        create_order_with_event x faults (explored x faults is_released savepoint_name).listeners
          (proxied "default") (product, amount) store

    with_event_opens :
        installed_create_order_with_event x faults is_released savepoint_name self
          (product, amount)
          none
          w
        ≡ run_in_new_transaction faults body (execute_options no_options) w
    unfolding installed_create_order_with_event explored on_method typeorm_execute wrapper
    with_event_opens = refl

    -- `createOrderWithEvent` outside a transaction, where the order is saved and no call of the driver
    -- throws: the caller gets the order; the confirmation is sent once, after the commit and before
    -- the runner is released; and the listener for failed orders is not called.
    pub create_order_with_event_notifies :
        (order : ℕ)
        → Quiet faults
        → database.result at_start.calls (some w.next_runner) saving ≡ ok order
        → ((installed_create_order_with_event x faults is_released savepoint_name self
              (product, amount)
              none
              w).1
            ≡ ok order)
          × ((installed_create_order_with_event x faults is_released savepoint_name self
                (product, amount)
                none
                w).0.calls
              ≡ w.calls
                ++ connect w.next_runner
                  ∷ start w.next_runner none
                  ∷ statement (some w.next_runner) (database.number saving)
                  ∷ commit w.next_runner
                  ∷ listener on_order_created order
                  ∷ release w.next_runner
                  ∷ [])
    unfolding create_order_with_event explored on_method publish
    create_order_with_event_notifies order quiet saved =
        let u = (body (some w.next_runner) at_start).0 in
        let whole =
          with_event_opens
          ∙ new_transaction_commits faults body (execute_options no_options) w u order quiet
              (rw saved refl) in
        (
          ap (λ (z : World × Result ℕ). z.1) whole,
          ap (λ (z : World × Result ℕ). z.0.calls) whole
              ∙ rw (saved, ==_refl w.next_runner) (simp append_assoc),
        )

  -- `adjustOrderAmount` within a transaction, for an order that is not there: what it did since its
  -- savepoint is rolled back, the transaction around it goes on, and the caller gets the error.
  pub adjust_order_amount_missing :
      (self : Target) (id r found : ℕ) (adjustment : ℤ) (w : World)
      → Quiet faults
      → is_released w.calls r ≡ false
      → database.result (log (savepoint r (savepoint_name w.calls)) w).calls (some r) (find_one id)
        ≡ ok found
      → amount_of found ≡ none
      → installed_adjust_order_amount x faults is_released savepoint_name self
          (id, adjustment)
          (some r)
          w
        ≡ (
          log (rollback_to_savepoint r (savepoint_name w.calls)) (
              log
                (statement (some r) (database.number (find_one id)))
                (log (savepoint r (savepoint_name w.calls)) w)),
          throw (order_not_found id),
        )
  unfolding installed_adjust_order_amount explored on_method wrapper adjust_order_amount
      typeorm_should_rollback
  adjust_order_amount_missing self id r found adjustment w quiet open_runner result missing =
      typeorm_execute_nested_throws faults
        (λ s. adjust_order_amount x (proxied "default") (id, adjustment) s)
        (execute_options (with_propagation nested)) is_released savepoint_name r w
        (log (statement (some r) (database.number (find_one id)))
          (log (savepoint r (savepoint_name w.calls)) w))
        (order_not_found id) true quiet open_runner (rw (result, missing) refl) refl refl
