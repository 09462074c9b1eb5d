-- ===== src/Orders/Examples.antt =====
-- The theorems on the order services at concrete inputs: a driver that never throws, and databases
-- that number statements by their kind and return order 7.
use nestplatform.Base.{
  ℕ, ◌≡◌, refl, Option, none, some, Bool, false, List, [], ◌∷◌, ◌==◌, if◌then◌else◌,
}
use nestplatform.Base.Int.{pos}
use nestplatform.Transaction.Rollback.{Err}
use nestplatform.Transaction.World.{
  Call, connect, start_session, start, commit, rollback, release, listener, statement, after_commit,
  after_rollback, deferred, World, ok, throw,
}
use nestplatform.Transaction.Decoration.{itself}
use nestplatform.Orders.{Database}
use nestplatform.Orders.Typeorm
use nestplatform.Orders.Typeorm.{Orders, forced_rollback, order_not_found}
use nestplatform.Orders.Mongoose
use nestplatform.Orders.Mongoose.{conditional_error}
use nestplatform.Orders.Joining.{create_order_commits, create_order_rolls_back}
use nestplatform.Orders.Notifying.{create_order_with_event_notifies}
use nestplatform.Orders.Deciding.{create_order_declarative_escapes, conditional_rollback_decides}

abbrev no_faults : List Call → Call → Option Err
no_faults before c = none

abbrev always_open : List Call → ℕ → Bool
always_open cs r = false

abbrev one_name : List Call → ℕ
one_name cs = 1

abbrev nowhere : World
nowhere = record { calls = []; synchronizations = λ r. []; next_runner = 4 }

abbrev statement_number : Typeorm.Statement → ℕ
statement_number (Typeorm.save product amount status) = 10
statement_number (Typeorm.update_status id status) = 20
statement_number (Typeorm.update_amount id amount) = 30
statement_number (Typeorm.insert_audit_log id action) = 40
statement_number (Typeorm.find_one id) = 50
statement_number Typeorm.find_all = 60

abbrev shop : Orders
shop = record {
  database = record { number = statement_number; result = λ cs r s. ok 7; undefined_value = 0 };
  id_of = λ order. order;
  amount_of = λ order. none;
}

-- A shop whose updates fail.
abbrev broken_shop : Orders
broken_shop = record shop {
  database = record {
    number = statement_number;
    result = λ cs r s. if statement_number s == 20 then throw forced_rollback else ok 7;
    undefined_value = 0;
  };
}

abbrev document_number : Mongoose.Statement → ℕ
document_number (Mongoose.save product amount status) = 10
document_number (Mongoose.increment_amount id adjustment) = 30

abbrev documents : Database Mongoose.Statement
documents = record { number = document_number; result = λ cs r s. ok 7; undefined_value = 0 }

create_order_commits_example :
    ((Typeorm.installed_create_order shop no_faults always_open one_name itself
        ("pen", pos 3)
        none
        nowhere).1
      ≡ ok 7)
    × ((Typeorm.installed_create_order shop no_faults always_open one_name itself
          ("pen", pos 3)
          none
          nowhere).0.calls
        ≡ connect 4
          ∷ start 4 none
          ∷ statement (some 4) 10
          ∷ statement (some 4) 20
          ∷ commit 4
          ∷ release 4
          ∷ [])
create_order_commits_example =
    create_order_commits shop no_faults always_open one_name itself "pen" (pos 3) nowhere
      (λ cs c. refl) 7 7 refl refl

create_order_rolls_back_example :
    ((Typeorm.installed_create_order broken_shop no_faults always_open one_name itself
        ("pen", pos 3)
        none
        nowhere).1
      ≡ throw forced_rollback)
    × ((Typeorm.installed_create_order broken_shop no_faults always_open one_name itself
          ("pen", pos 3)
          none
          nowhere).0.calls
        ≡ connect 4
          ∷ start 4 none
          ∷ statement (some 4) 10
          ∷ statement (some 4) 20
          ∷ rollback 4
          ∷ release 4
          ∷ [])
create_order_rolls_back_example =
    create_order_rolls_back broken_shop no_faults always_open one_name itself "pen" (pos 3) nowhere
      (λ cs c. refl) 7 forced_rollback refl refl

create_order_with_event_notifies_example :
    ((Typeorm.installed_create_order_with_event shop no_faults always_open one_name itself
        ("pen", pos 3)
        none
        nowhere).1
      ≡ ok 7)
    × ((Typeorm.installed_create_order_with_event shop no_faults always_open one_name itself
          ("pen", pos 3)
          none
          nowhere).0.calls
        ≡ connect 4
          ∷ start 4 none
          ∷ statement (some 4) 10
          ∷ commit 4
          ∷ listener 1 7
          ∷ release 4
          ∷ [])
create_order_with_event_notifies_example =
    create_order_with_event_notifies shop no_faults always_open one_name itself "pen" (pos 3)
      nowhere 7 (λ cs c. refl) refl

create_order_declarative_escapes_example :
    (u : World) × (Mongoose.installed_create_order_declarative documents no_faults itself
        ("pen", pos 3)
        (some 2)
        nowhere
      ≡ (u, ok 7))
    × (u.calls ≡ statement none 10 ∷ [])
    × (u.synchronizations 2 ≡ deferred after_commit 1 7 ∷ deferred after_rollback 2 7 ∷ [])
create_order_declarative_escapes_example =
    create_order_declarative_escapes documents no_faults itself "pen" (pos 3) 2 7 nowhere refl

conditional_rollback_decides_example :
    ((Mongoose.installed_create_order_with_conditional_rollback documents no_faults itself
        ("pen", pos 3, false)
        none
        nowhere).1
      ≡ throw (conditional_error false))
    × ((Mongoose.installed_create_order_with_conditional_rollback documents no_faults itself
          ("pen", pos 3, false)
          none
          nowhere).0.calls
        ≡ start_session 4 ∷ start 4 none ∷ statement (some 4) 10 ∷ commit 4 ∷ release 4 ∷ [])
conditional_rollback_decides_example =
    conditional_rollback_decides documents no_faults itself "pen" (pos 3) nowhere false 7
      (λ cs c. refl) refl
