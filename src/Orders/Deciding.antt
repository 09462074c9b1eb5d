-- ===== src/Orders/Deciding.antt =====
-- The Mongoose order service: a decision on an error, and an event without a transaction.
use nestplatform.Base.{
  ℕ, ◌≡◌, refl, ap, ◌∙◌, String, Option, none, some, Bool, true, false, List, [], ◌∷◌, ◌++◌,
  append_assoc, ==_refl, if◌then◌else◌,
}
use nestplatform.Base.Int.{ℤ}
use nestplatform.Transaction.Rollback.{Err, single, named, mongoose_should_rollback}
use nestplatform.Transaction.World.{
  after_commit, after_rollback, deferred, Call, start_session, start, commit, rollback, release,
  listener, statement, World, Result, ok, throw, log,
}
use nestplatform.Transaction.Adapter.{
  run_in_new_session, mongoose_execute, TransactionExecuteOptions,
}
use nestplatform.Transaction.Adapter.Traces.{log_all}
use nestplatform.Transaction.Adapter.Endings.{commit_calls, rollback_calls}
use nestplatform.Transaction.Adapter.Faultless.{Quiet}
use nestplatform.Transaction.Adapter.Opening.{new_session_throws}
use nestplatform.Transaction.Adapter.Propagation.{begun}
use nestplatform.Transaction.Decoration.{Target, proxied, execute_options, wrapper, on_method}
use nestplatform.Orders.{Database, with_rollback_on_error, on_order_created, on_order_failed}
use nestplatform.Orders.Mongoose.{
  Statement, save, conditional_error, create_order_with_conditional_rollback,
  create_order_declarative, installed_create_order_with_conditional_rollback,
  installed_create_order_declarative, explored,
}

module _ (db : Database Statement) (faults : List Call → Call → Option Err) where
  -- `createOrderDeclarative`, which publishes an event but is not transactional, called outside a
  -- transaction, where the order is saved: both listeners are called at once, the one for orders that
  -- failed too, although the order has been saved, and the caller gets it.
  pub create_order_declarative_notifies_both :
      (self : Target) (product : String) (amount : ℤ) (order : ℕ) (w : World)
      → db.result w.calls none (save product amount (some "declarative")) ≡ ok order
      → installed_create_order_declarative db faults self (product, amount) none w ≡ (
        log (listener on_order_failed order) (
            log
              (listener on_order_created order)
              (log (statement none (db.number (save product amount (some "declarative")))) w)),
        ok order,
      )
  unfolding installed_create_order_declarative explored on_method wrapper create_order_declarative
  create_order_declarative_notifies_both self product amount order w saved = rw saved refl

  -- `createOrderDeclarative` of the Mongoose service, called in a transaction, where the order is
  -- saved: its statement runs outside the transaction, since the wrapper calls it on the service
  -- itself and not on the proxy, but the event waits for the end of the transaction.
  pub create_order_declarative_escapes :
      (self : Target) (product : String) (amount : ℤ) (r order : ℕ) (w : World)
      → db.result w.calls none (save product amount (some "declarative")) ≡ ok order
      → (u : World) × (installed_create_order_declarative db faults self
            (product, amount)
            (some r)
            w
          ≡ (u, ok order))
        × (u.calls
            ≡ w.calls ++ statement none (db.number (save product amount (some "declarative"))) ∷ [])
        × (u.synchronizations r
            ≡ w.synchronizations r
              ++ deferred after_commit on_order_created order
                ∷ deferred after_rollback on_order_failed order
                ∷ [])
  unfolding installed_create_order_declarative explored on_method wrapper create_order_declarative
  create_order_declarative_escapes self product amount r order w saved = (
    (installed_create_order_declarative db faults self (product, amount) (some r) w).0,
    rw saved refl,
    rw saved refl,
    rw (saved, ==_refl r) (append_assoc (w.synchronizations r) _ _),
  )

  module _ (self : Target) (product : String) (amount : ℤ) (w : World) where
    abbrev pub at_start : World
    at_start = begun (start_session w.next_runner) (start w.next_runner none) w

    abbrev pub saving : Statement
    saving = save product amount (some "conditional_rollback")

    abbrev options : TransactionExecuteOptions
    options = execute_options (with_rollback_on_error (single (named "BusinessException")))

    abbrev body : Bool → Option ℕ → World → World × Result ℕ
    body b store =
        create_order_with_conditional_rollback db (proxied "default") (product, amount, b) store

    conditional_opens :
        (b : Bool)
        → installed_create_order_with_conditional_rollback db faults self
            (product, amount, b)
            none
            w
          ≡ run_in_new_session faults (body b) options w
    unfolding installed_create_order_with_conditional_rollback explored on_method wrapper
        mongoose_execute
    conditional_opens b = refl

    decided :
        (b : Bool)
        → mongoose_should_rollback (conditional_error b) options.rollback_on_error ≡ some b
    unfolding mongoose_should_rollback
    decided true = refl
    decided false = refl

    endings :
        (b : Bool)
        → (log_all
            ((if b
                then rollback_calls w.next_runner (at_start.synchronizations w.next_runner)
                else commit_calls w.next_runner (at_start.synchronizations w.next_runner))
              ++ release w.next_runner ∷ [])
            (log (statement (some w.next_runner) (db.number saving)) at_start)).calls
          ≡ w.calls
            ++ start_session w.next_runner
              ∷ start w.next_runner none
              ∷ statement (some w.next_runner) (db.number saving)
              ∷ (if b then rollback w.next_runner else commit w.next_runner)
              ∷ release w.next_runner
              ∷ []
    endings true = rw (==_refl w.next_runner) (simp append_assoc)
    endings false = rw (==_refl w.next_runner) (simp append_assoc)

    -- `createOrderWithConditionalRollback` outside a transaction, where the order is saved and no call
    -- of the driver throws: the caller gets the error either way; the transaction is rolled back if
    -- the error has the name that the decorator gives, and is committed, with the order in it, if not.
    pub conditional_rollback_decides :
        (should_type_match : Bool) (order : ℕ)
        → Quiet faults
        → db.result at_start.calls (some w.next_runner) saving ≡ ok order
        → ((installed_create_order_with_conditional_rollback db faults self
              (product, amount, should_type_match)
              none
              w).1
            ≡ throw (conditional_error should_type_match))
          × ((installed_create_order_with_conditional_rollback db faults self
                (product, amount, should_type_match)
                none
                w).0.calls
              ≡ w.calls
                ++ start_session w.next_runner
                  ∷ start w.next_runner none
                  ∷ statement (some w.next_runner) (db.number saving)
                  ∷ (if should_type_match then rollback w.next_runner else commit w.next_runner)
                  ∷ release w.next_runner
                  ∷ [])
    unfolding create_order_with_conditional_rollback
    conditional_rollback_decides b order quiet saved =
        let whole =
          conditional_opens b
          ∙ new_session_throws faults (body b) options w
              (log (statement (some w.next_runner) (db.number saving)) at_start)
              (conditional_error b) b quiet (rw saved refl) (decided b) in
        (
          ap (λ (z : World × Result ℕ). z.1) whole,
          ap (λ (z : World × Result ℕ). z.0.calls) whole ∙ endings b,
        )
