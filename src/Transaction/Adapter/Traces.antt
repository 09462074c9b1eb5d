-- ===== src/Transaction/Adapter/Traces.antt =====
-- The calls that hooks and listeners of a transaction make.
use nestplatform.Base.{
  ℕ, ◌≡◌, refl, ap, sym, ◌∙◌, Option, List, [], ◌∷◌, ◌++◌, append_assoc, append-nil, inl, inr,
  Bool-cases, if◌then◌else◌,
}
use nestplatform.Transaction.Rollback.{Err}
use nestplatform.Transaction.World.{
  TransactionPhase, TransactionSynchronization, deferred, custom, same_phase, listener, hook, Call,
  World, Result, ok, throw, M, then_do, run_hook, invoke_each,
}

abbrev pub log_all : List Call → World → World
log_all cs w = record w { calls = w.calls ++ cs }

-- The calls of one synchronization in a phase, and those of all.
abbrev pub hook_calls : TransactionPhase → TransactionSynchronization → List Call
hook_calls p (deferred q l payload) = if same_phase q p then listener l payload ∷ [] else []
hook_calls p (custom s has) = if has p then hook p s ∷ [] else []

abbrev pub phase_calls : TransactionPhase → List TransactionSynchronization → List Call
phase_calls p [] = []
phase_calls p (s ∷ ss) = hook_calls p s ++ phase_calls p ss

abbrev with_calls : World → List Call → World
with_calls w cs = record w { calls = cs }

pub log_all-nil : (w : World) → log_all [] w ≡ w
log_all-nil w = ap (with_calls w) (append-nil w.calls)

pub log_all-append :
    (cs ds : List Call) (w : World) → log_all ds (log_all cs w) ≡ log_all (cs ++ ds) w
log_all-append cs ds w = ap (with_calls w) (append_assoc w.calls cs ds)

pub then_do_ok :
    {A B : Type 0} (x : World × Result A) (f : A → M B) (w' : World) (b : B)
    → then_do x f ≡ (w', ok b)
    → (w : World) × (a : A) × (x ≡ (w, ok a)) × (f a w ≡ (w', ok b))
then_do_ok (w, ok a) f w' b h = (w, a, refl, h)
then_do_ok (w, throw e) f w' b h = cc

-- Calls, and then those of a phase.
pub chain_phase :
    (r : ℕ) (p : TransactionPhase) (cs : List Call) (w u v : World)
    → u ≡ log_all cs w
    → v ≡ log_all (phase_calls p (u.synchronizations r)) u
    → v ≡ log_all (cs ++ phase_calls p (w.synchronizations r)) w
chain_phase r p cs w u v first next =
    next
    ∙ ap (λ (z : World). log_all (phase_calls p (z.synchronizations r)) z) first
    ∙ log_all-append cs (phase_calls p (w.synchronizations r)) w

module _ (faults : List Call → Call → Option Err) where
  pub run_hook_calls :
      (p : TransactionPhase) (s : TransactionSynchronization) (w : World)
      → (run_hook faults p s w).0 ≡ log_all (hook_calls p s) w
  run_hook_calls p (deferred q l payload) w = elim (Bool-cases (same_phase q p)) [
    | inl now ↦ rw now
    | inr later ↦ rw later (sym (log_all-nil w))
  ]
  run_hook_calls p (custom s has) w = elim (Bool-cases (has p)) [
    | inl now ↦ rw now
    | inr later ↦ rw later (sym (log_all-nil w))
  ]

  -- Where no hook throws, the phase's calls are those of all synchronizations, in order.
  pub invoke_each_ok :
      (p : TransactionPhase) (ss : List TransactionSynchronization) (w w' : World)
      → invoke_each faults p ss w ≡ (w', ok tt)
      → w' ≡ log_all (phase_calls p ss) w
  unfolding invoke_each
  invoke_each_ok p [] w w' h =
      sym (ap (λ (x : World × Result (Unit {0})). x.0) h) ∙ sym (log_all-nil w)
  invoke_each_ok p (s ∷ ss) w w' h =
      let (u, a, first, others) =
        then_do_ok (run_hook faults p s w) (λ _. invoke_each faults p ss) w' tt h in
      let after_first : u ≡ log_all (hook_calls p s) w =
        sym (ap (λ (x : World × Result (Unit {0})). x.0) first) ∙ run_hook_calls p s w in
      invoke_each_ok p ss u w' others
      ∙ ap (log_all (phase_calls p ss)) after_first
      ∙ log_all-append (hook_calls p s) (phase_calls p ss) w

  pub then_do_keeps :
      (cs : List Call) (x : World × Result (Unit {0})) (f : Unit {0} → M (Unit {0})) (w : World)
      → x.0 ≡ log_all cs w
      → ((u : World) → (ds : List Call) × ((f tt u).0 ≡ log_all ds u))
      → (ds : List Call) × ((then_do x f).0 ≡ log_all ds w)
  then_do_keeps cs (u, ok a) f w h keeps =
      let (ds, e) = keeps u in (cs ++ ds, e ∙ ap (log_all ds) h ∙ log_all-append cs ds w)
  then_do_keeps cs (u, throw e) f w h keeps = (cs, h)

  -- Hooks that throw or not leave the synchronizations and the runners alone.
  pub invoke_each_keeps :
      (p : TransactionPhase) (ss : List TransactionSynchronization) (w : World)
      → (cs : List Call) × ((invoke_each faults p ss w).0 ≡ log_all cs w)
  unfolding invoke_each
  invoke_each_keeps p [] w = ([], sym (log_all-nil w))
  invoke_each_keeps p (s ∷ ss) w =
      then_do_keeps (hook_calls p s) (run_hook faults p s w) (λ _. invoke_each faults p ss) w
        (run_hook_calls p s w) (invoke_each_keeps p ss)
