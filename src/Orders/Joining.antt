-- ===== src/Orders/Joining.antt =====
-- A method of the TypeORM order service that calls another one.
use nestplatform.Base.{
  ℕ, ◌≡◌, refl, ap, ◌∙◌, String, Option, none, some, Bool, true, List, [], ◌∷◌, ◌++◌, append_assoc,
  ==_refl,
}
use nestplatform.Base.Int.{ℤ}
use nestplatform.Transaction.Rollback.{Err, typeorm_should_rollback}
use nestplatform.Transaction.World.{
  Call, connect, start, commit, rollback, release, statement, World, Result, ok, throw, log,
}
use nestplatform.Transaction.Adapter.{run_in_new_transaction, typeorm_execute}
use nestplatform.Transaction.Adapter.Faultless.{Quiet}
use nestplatform.Transaction.Adapter.Nesting.{opened}
use nestplatform.Transaction.Adapter.Opening.{new_transaction_commits, new_transaction_throws}
use nestplatform.Transaction.Decoration.{Target, proxied, execute_options, wrapper, on_method}
use nestplatform.Transaction.Metadata.{no_options}
use nestplatform.Orders.Typeorm.{
  Statement, save, update_status, Orders, update_order_status, create_order,
  installed_update_order_status, installed_create_order, explored,
}

module _ (x : Orders) (faults : List Call → Call → Option Err) (is_released : List Call → ℕ → Bool)
    (savepoint_name : List Call → ℕ) where
  open x use {database, id_of}

  update_joins :
      (self : Target) (args : ℕ × String) (r : ℕ) (w : World)
      → installed_update_order_status x faults is_released savepoint_name self args (some r) w
        ≡ update_order_status x (proxied "default") args (some r) w
  unfolding installed_update_order_status explored on_method typeorm_execute wrapper
  update_joins self args r w = refl

  update_returns :
      (self : Target) (id : ℕ) (status : String) (r done : ℕ) (w : World)
      → database.result w.calls (some r) (update_status id status) ≡ ok done
      → installed_update_order_status x faults is_released savepoint_name self
          (id, status)
          (some r)
          w
        ≡ (
          log (statement (some r) (database.number (update_status id status))) w,
          ok database.undefined_value,
        )
  unfolding update_order_status
  update_returns self id status r done w h = update_joins self (id, status) r w ∙ rw h refl

  update_throws :
      (self : Target) (id : ℕ) (status : String) (r : ℕ) (e : Err) (w : World)
      → database.result w.calls (some r) (update_status id status) ≡ throw e
      → installed_update_order_status x faults is_released savepoint_name self
          (id, status)
          (some r)
          w
        ≡ (log (statement (some r) (database.number (update_status id status))) w, throw e)
  unfolding update_order_status
  update_throws self id status r e w h = update_joins self (id, status) r w ∙ rw h refl

  create_opens :
      (self : Target) (args : String × ℤ) (w : World)
      → installed_create_order x faults is_released savepoint_name self args none w
        ≡ run_in_new_transaction faults
            (λ s.
              create_order x
                (installed_update_order_status x faults is_released savepoint_name)
                (proxied "default")
                args
                s)
            (execute_options no_options)
            w
  unfolding installed_create_order explored on_method typeorm_execute wrapper
  create_opens self args w = refl

  module _ (self : Target) (product : String) (amount : ℤ) (w : World) (quiet : Quiet faults) where
    abbrev pub at_start : World
    at_start = opened (execute_options no_options) w

    abbrev pub saving : Statement
    saving = save product amount "pending"

    abbrev pub confirming : ℕ → Statement
    confirming order = update_status (id_of order) "confirmed"

    abbrev pub runs : Statement → World → World
    runs s = log (statement (some w.next_runner) (database.number s))

    -- In the service at work, `createOrder` is called outside a transaction; both of its statements
    -- succeed, and no call of the driver throws. They run on the runner of one transaction, which
    -- `updateOrderStatus` joins and which is committed once, after both; the caller gets the order.
    pub create_order_commits :
        (order done : ℕ)
        → database.result at_start.calls (some w.next_runner) saving ≡ ok order
        → database.result (runs saving at_start).calls (some w.next_runner) (confirming order)
          ≡ ok done
        → ((installed_create_order x faults is_released savepoint_name self
              (product, amount)
              none
              w).1
            ≡ ok order)
          × ((installed_create_order x faults is_released savepoint_name self
                (product, amount)
                none
                w).0.calls
              ≡ w.calls
                ++ connect w.next_runner
                  ∷ start w.next_runner none
                  ∷ statement (some w.next_runner) (database.number saving)
                  ∷ statement (some w.next_runner) (database.number (confirming order))
                  ∷ commit w.next_runner
                  ∷ release w.next_runner
                  ∷ [])
    unfolding create_order
    create_order_commits order done saved confirmed =
        let whole =
          create_opens self (product, amount) w
          ∙ new_transaction_commits faults
              (λ s.
                create_order x (installed_update_order_status x faults is_released savepoint_name)
                  (proxied "default") (product, amount) s)
              (execute_options no_options) w (runs (confirming order) (runs saving at_start)) order
              quiet
              (rw
                (
                  saved,
                  update_returns (proxied "default") (id_of order) "confirmed" w.next_runner done
                      (runs saving at_start) confirmed,
                )
                refl) in
        (
          ap (λ (z : World × Result ℕ). z.1) whole,
          ap (λ (z : World × Result ℕ). z.0.calls) whole
              ∙ rw (==_refl w.next_runner) (simp append_assoc),
        )

    -- In the service at work, `createOrder` is called outside a transaction; its first statement
    -- succeeds, the second one throws, and no call of the driver does. Both run in the transaction, it is
    -- rolled back and never committed, and the caller gets the error.
    pub create_order_rolls_back :
        (order : ℕ) (e : Err)
        → database.result at_start.calls (some w.next_runner) saving ≡ ok order
        → database.result (runs saving at_start).calls (some w.next_runner) (confirming order)
          ≡ throw e
        → ((installed_create_order x faults is_released savepoint_name self
              (product, amount)
              none
              w).1
            ≡ throw e)
          × ((installed_create_order x faults is_released savepoint_name self
                (product, amount)
                none
                w).0.calls
              ≡ w.calls
                ++ connect w.next_runner
                  ∷ start w.next_runner none
                  ∷ statement (some w.next_runner) (database.number saving)
                  ∷ statement (some w.next_runner) (database.number (confirming order))
                  ∷ rollback w.next_runner
                  ∷ release w.next_runner
                  ∷ [])
    unfolding create_order typeorm_should_rollback
    create_order_rolls_back order e saved refused =
        let whole =
          create_opens self (product, amount) w
          ∙ new_transaction_throws faults
              (λ s.
                create_order x (installed_update_order_status x faults is_released savepoint_name)
                  (proxied "default") (product, amount) s)
              (execute_options no_options) w (runs (confirming order) (runs saving at_start)) e true
              quiet
              (rw
                (
                  saved,
                  update_throws (proxied "default") (id_of order) "confirmed" w.next_runner e
                      (runs saving at_start) refused,
                )
                refl)
              refl in
        (
          ap (λ (z : World × Result ℕ). z.1) whole,
          ap (λ (z : World × Result ℕ). z.0.calls) whole
              ∙ rw (==_refl w.next_runner) (simp append_assoc),
        )
