-- ===== src/Transaction/Decoration/Examples.antt =====
-- The theorems on decorated methods at concrete inputs: a driver that never throws, and two listeners.
use nestplatform.Base.{ℕ, ◌≡◌, refl, Option, none, some, Bool, false, List, [], ◌∷◌}
use nestplatform.Common.Stringify.{Text}
use nestplatform.Transaction.Rollback.{Err, typeorm_should_rollback, decide_rollback}
use nestplatform.Transaction.World.{
  TransactionPhase, before_commit, after_commit, Call, connect, start, commit, rollback, release,
  listener, deferred, World, ok, throw,
}
use nestplatform.Transaction.Adapter.{typeorm_execute}
use nestplatform.Transaction.Adapter.Traces.{log_all}
use nestplatform.Transaction.Adapter.Propagation.{begun}
use nestplatform.Transaction.Publisher.{TransactionalListenerMetadata, Listeners, get_listeners}
use nestplatform.Transaction.Decoration.{
  TransactionAdapters, TransactionalOptions, TransactionalEvent, Method, missing, itself, wrapper,
  resolved_adapter,
}
use nestplatform.Transaction.Decoration.Composition.{
  transactional_event_commits, transactional_event_throws, transactional_event_joins,
}

abbrev failure : Err
failure = record { name = "PaymentError"; constructor_name = "PaymentError"; tag = 1 }

abbrev no_faults : List Call → Call → Option Err
no_faults before c = none

abbrev always_open : List Call → ℕ → Bool
always_open cs r = false

abbrev one_name : List Call → ℕ
one_name cs = 1

abbrev nowhere : World
nowhere = record { calls = []; synchronizations = λ r. []; next_runner = 0 }

abbrev opened_nowhere : World
opened_nowhere = begun (connect 0) (start 0 none) nowhere

abbrev listener_for : Option TransactionPhase → ℕ → TransactionalListenerMetadata
listener_for p callback = record {
  event = "paid";
  phase = p;
  fallback_execution = none;
  callback = callback;
}

abbrev two_listeners : Listeners
two_listeners = ("paid", listener_for none 1 ∷ listener_for (some before_commit) 2 ∷ []) ∷ []

abbrev paid : TransactionalEvent
paid = record { event = "paid"; payload = none }

abbrev no_options : TransactionalOptions
no_options = record {
  propagation = missing;
  isolation = missing;
  adapter = missing;
  rollback_on_error = missing;
}

abbrev typeorm : TransactionAdapters
typeorm =
    (
      "default",
      record {
        execute = λ store callback. typeorm_execute no_faults always_open one_name store callback;
      },
    )
    ∷ []

-- `p()`
abbrev unit_text : Unit {0} → Option Text
unit_text args = some (112 ∷ 40 ∷ 41 ∷ [])

abbrev pays : Method Unit
pays self args store w = (w, ok 5)

abbrev refuses : Method Unit
refuses self args store w = (w, throw failure)

transactional_event_commits_example :
    (f : Method Unit) × (wrapper no_faults unit_text typeorm two_listeners pays
        (some paid)
        (some no_options)
      ≡ some f)
    × ((f itself tt none nowhere).1 ≡ ok 5)
    × ((f itself tt none nowhere).0.calls
        ≡ connect 0 ∷ start 0 none ∷ listener 2 5 ∷ commit 0 ∷ listener 1 5 ∷ release 0 ∷ [])
unfolding resolved_adapter get_listeners
transactional_event_commits_example =
    transactional_event_commits no_faults unit_text two_listeners paid pays typeorm no_options
      always_open one_name refl itself tt (112 ∷ 40 ∷ 41 ∷ []) none nowhere opened_nowhere
      (λ cs c. refl) refl 5 5 tt refl refl

transactional_event_throws_example :
    (f : Method Unit) × (wrapper no_faults unit_text typeorm two_listeners refuses
        (some paid)
        (some no_options)
      ≡ some f)
    × (f itself tt none nowhere
        ≡ (log_all (rollback 0 ∷ release 0 ∷ []) opened_nowhere, throw failure))
unfolding resolved_adapter typeorm_should_rollback decide_rollback
transactional_event_throws_example =
    transactional_event_throws no_faults unit_text two_listeners paid refuses typeorm no_options
      always_open one_name refl itself tt (112 ∷ 40 ∷ 41 ∷ []) none nowhere opened_nowhere
      (λ cs c. refl) refl failure tt refl refl

transactional_event_joins_example :
    (f : Method Unit) × (wrapper no_faults unit_text typeorm two_listeners pays
        (some paid)
        (some no_options)
      ≡ some f)
    × (u' : World) × (f itself tt (some 3) nowhere ≡ (u', ok 5))
    × (u'.calls ≡ [])
    × (u'.synchronizations 3 ≡ deferred after_commit 1 5 ∷ deferred before_commit 2 5 ∷ [])
unfolding resolved_adapter get_listeners
transactional_event_joins_example =
    transactional_event_joins no_faults unit_text two_listeners paid pays typeorm no_options
      always_open one_name refl itself tt (112 ∷ 40 ∷ 41 ∷ []) 3 5 5 nowhere nowhere refl refl refl
      refl
