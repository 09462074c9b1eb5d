-- ===== src/Transaction/Publisher.antt =====
-- `TransactionalEventPublisher` of packages/transactional/src/transactional-event.publisher.ts. The
-- listeners of an event are kept in the order of their registration.
pub mod Phases
use nestplatform.Base.{
  ℕ, String, Option, none, some, Bool, true, false, not, List, [], ◌∷◌, ◌++◌, str_eq, if◌then◌else◌,
}
use nestplatform.Transaction.Rollback.{Err}
use nestplatform.Transaction.World.{
  TransactionPhase, after_commit, deferred, Call, M, ◌>>◌, ◌>>=◌, pure, add_synchronization,
  execute_listener, World, Result, ok, then_do,
}

-- `callback` numbers the listener's method.
pub record TransactionalListenerMetadata : Type 0 where
  pub event : String
  pub phase : Option TransactionPhase
  pub fallback_execution : Option Bool
  pub callback : ℕ

-- The map from events to listeners.
abbrev pub Listeners : Type 0
Listeners = List (String × List TransactionalListenerMetadata)

unfoldable pub get_listeners : String → Listeners → Option (List TransactionalListenerMetadata)
get_listeners e [] = none
get_listeners e ((f, ls) ∷ m) = if str_eq f e then some ls else get_listeners e m

set_listeners : String → List TransactionalListenerMetadata → Listeners → Listeners
set_listeners e ls [] = (e, ls) ∷ []
set_listeners e ls ((f, old) ∷ m) =
    if str_eq f e then (f, ls) ∷ m else (f, old) ∷ set_listeners e ls m

abbrev pub listed : Option (List TransactionalListenerMetadata) → List TransactionalListenerMetadata
listed none = []
listed (some ls) = ls

unfoldable pub register_listener : TransactionalListenerMetadata → Listeners → Listeners
unfolding get_listeners set_listeners
register_listener l m = set_listeners l.event (listed (get_listeners l.event m) ++ l ∷ []) m

abbrev pub phase_of : TransactionalListenerMetadata → TransactionPhase
phase_of l = elim l.phase [ none ↦ after_commit | some p ↦ p ]

-- `fallbackExecution !== false`
abbrev pub falls_back : Option Bool → Bool
falls_back none = true
falls_back (some b) = b

module _ (faults : List Call → Call → Option Err) where
  -- One round of the loop of `publish`.
  abbrev pub publish_to : Option ℕ → ℕ → TransactionalListenerMetadata → M (Unit {0})
  publish_to none payload l =
      if falls_back l.fallback_execution
      then execute_listener faults l.callback payload
      else pure tt
  publish_to (some r) payload l =
      add_synchronization (some r) (deferred (phase_of l) l.callback payload)

  unfoldable pub publish_each : Option ℕ → ℕ → List TransactionalListenerMetadata → M (Unit {0})
  publish_each store payload [] = pure tt
  publish_each store payload (l ∷ ls) = do publish_to store payload l; publish_each store payload ls

  -- `publish`, in the context of a store or of none.
  unfoldable pub publish : Listeners → Option ℕ → String → ℕ → M (Unit {0})
  unfolding publish_each get_listeners
  publish m store event payload = elim (get_listeners event m) [
    | none ↦ pure tt
    | some ls ↦ publish_each store payload ls
  ]
