-- ===== src/Transaction/World.antt =====
-- packages/transactional/src/transaction-context.ts, and the world that a transaction runs in. The
-- database driver, custom synchronization hooks and event listeners are outside: the world keeps the
-- list of their calls, and a parameter says of each call, given the calls before it, whether it
-- throws. A transaction's store is named by its runner. Hooks register no further synchronization.
use nestplatform.Base.{
  ℕ, Option, none, some, Bool, true, false, List, [], ◌∷◌, ◌++◌, ◌==◌, if◌then◌else◌,
}
use nestplatform.Transaction.Rollback.{Err}

pub data TransactionPhase : Type 0 where
  before_commit after_commit after_rollback after_completion : TransactionPhase

pub data TransactionIsolation : Type 0 where
  read_uncommitted read_committed repeatable_read serializable : TransactionIsolation

-- The calls that leave the packages. `hook` is a custom synchronization's method, `listener` an
-- event listener's callback with its payload, and `statement` one that a method of an application
-- runs on a runner or session, or on none.
pub data Call : Type 0 where
  connect start_session commit rollback release : ℕ → Call
  start : ℕ → Option TransactionIsolation → Call
  savepoint release_savepoint rollback_to_savepoint : ℕ → ℕ → Call
  hook : TransactionPhase → ℕ → Call
  listener : ℕ → ℕ → Call
  statement : Option ℕ → ℕ → Call

-- A synchronization: an event listener that waits for its phase, or a custom one that has some of
-- the four methods.
pub data TransactionSynchronization : Type 0 where
  deferred : TransactionPhase → ℕ → ℕ → TransactionSynchronization
  custom : ℕ → (TransactionPhase → Bool) → TransactionSynchronization

pub record World : Type 0 where
  pub calls : List Call
  pub synchronizations : ℕ → List TransactionSynchronization
  pub next_runner : ℕ

pub data Result (A : Type 0) : Type 0 where
  ok : A → Result A
  throw : Err → Result A

-- An asynchronous computation: it leaves a world, and a value or an error.
abbrev pub M : Type 0 → Type 0
M A = World → World × Result A

abbrev pub pure : {A : Type 0} → A → M A
pure a w = (w, ok a)

abbrev pub raise : {A : Type 0} → Err → M A
raise e w = (w, throw e)

abbrev pub then_do : {A B : Type 0} → World × Result A → (A → M B) → World × Result B
then_do (w, ok a) f = f a w
then_do (w, throw e) f = (w, throw e)

infixl 5 ◌>>=◌ ◌>>◌
abbrev pub ◌>>=◌ : {A B : Type 0} → M A → (A → M B) → M B
◌>>=◌ m f w = then_do (m w) f

abbrev pub ◌>>◌ : {A B : Type 0} → M A → M B → M B
m >> k = m >>= λ _. k

abbrev pub caught : {A : Type 0} → World × Result A → (Err → M A) → World × Result A
caught (w, ok a) h = (w, ok a)
caught (w, throw e) h = h e w

-- `try … catch`.
abbrev pub catch : {A : Type 0} → M A → (Err → M A) → M A
catch m h w = caught (m w) h

-- `try … finally`: an error of the cleanup replaces what came before it.
abbrev pub ending : {A : Type 0} → Result A → World × Result (Unit {0}) → World × Result A
ending r (w, ok _) = (w, r)
ending r (w, throw e) = (w, throw e)

abbrev pub finally : {A : Type 0} → M A → M (Unit {0}) → M A
finally m cleanup w = ending (m w).1 (cleanup (m w).0)

abbrev pub log : Call → World → World
log c w = record w { calls = w.calls ++ c ∷ [] }

abbrev pub outcome_of : Option Err → Result (Unit {0})
outcome_of none = ok tt
outcome_of (some e) = throw e

-- `getStore()?.synchronizations.push(…)`; without a store nothing is registered.
abbrev pub add_synchronization : Option ℕ → TransactionSynchronization → M (Unit {0})
add_synchronization none s w = (w, ok tt)
add_synchronization (some r) s w = (
  record w {
    synchronizations = λ q. if r == q then w.synchronizations q ++ s ∷ [] else w.synchronizations q;
  },
  ok tt,
)

abbrev pub same_phase : TransactionPhase → TransactionPhase → Bool
same_phase before_commit before_commit = true
same_phase after_commit after_commit = true
same_phase after_rollback after_rollback = true
same_phase after_completion after_completion = true
same_phase _ _ = false

module _ (faults : List Call → Call → Option Err) where
  abbrev pub perform : Call → M (Unit {0})
  perform c w = (log c w, outcome_of (faults w.calls c))

  -- `executeListener`: an error of the callback is logged and goes no further.
  abbrev pub execute_listener : ℕ → ℕ → M (Unit {0})
  execute_listener l payload w = (log (listener l payload) w, ok tt)

  abbrev pub run_hook : TransactionPhase → TransactionSynchronization → M (Unit {0})
  run_hook p (deferred q l payload) = if same_phase q p then execute_listener l payload else pure tt
  run_hook p (custom s has) = if has p then perform (hook p s) else pure tt

  unfoldable pub invoke_each : TransactionPhase → List TransactionSynchronization → M (Unit {0})
  invoke_each p [] = pure tt
  invoke_each p (s ∷ ss) = do run_hook p s; invoke_each p ss

  -- `invokeBeforeCommit` and its three siblings, in the context of the store of runner `r`.
  unfoldable pub invoke : ℕ → TransactionPhase → M (Unit {0})
  unfolding invoke_each
  invoke r p w = invoke_each p (w.synchronizations r) w
