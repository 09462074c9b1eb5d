-- ===== src/Redlock/Examples.antt =====
-- Tests, and the theorems on the Redlock lock at concrete inputs: nodes that keep their keys in
-- memory, and links that answer.
use mathlib.Core.List.{Permᴰ}
use nestplatform.Base.{
  length, ◌⊎◌, inl, inr, Bool-cases, ℕ, zero, suc, ◌+◌, ◌≤◌, ◌<◌, ◌≡◌, ◌≢◌, ◌↔◌, refl, ap, sym,
  String, Option, none, some, true, false, List, [], ◌∷◌, ◌++◌, arith, str_eq, if◌then◌else◌, ltb,
}
use nestplatform.Base.Int.{ℤ, ◌+ℤ◌, ◌-ℤ◌, pos, negsuc, ◌≤ℤ◌}
use nestplatform.Redlock.Redis.{Redis, is_some}
use nestplatform.Redlock.Scripts.{acquire_script, release_script, any_exists, set_all}
use nestplatform.Redlock.Voting.{
  ClientExecutionResult, vote_for, vote_against, resource_locked, attempt_operation, settle_votes,
  on_result_resolve, start_round, quorum, for, against,
}
use nestplatform.Redlock.Voting.Quorum.{OncePerClient, count_for, count_against}
use nestplatform.Redlock.Voting.Decision.{Arrivals}
use nestplatform.Redlock.Scripts.Laws.{release-acquire}
use nestplatform.Redlock.Voting.{Error, ExecutionStats}
use nestplatform.Redlock.Voting.Decision.{attempt_operation_decision}
use nestplatform.Redlock.Execute.{
  Ratio, default_redlock_config, Attempted, returned, execute, execute_loop,
}
use nestplatform.Redlock.Execute.Retrying.{Explained, execute-Explained}
use nestplatform.Redlock.Service.{
  Runtime, RedLock, no_override, acquire, execute_with, with_override, drift,
}
use nestplatform.Redlock.Execute.{Outcome, never_settles}
use nestplatform.Redlock.Service.{extend, millis}
use nestplatform.Redlock.Holding.{Holding, begin, timer_fires, with_lock, here, next, fires}
use nestplatform.Redlock.Holding.Invariant.{Inv, with_lock-Inv}
use nestplatform.Redlock.Service.Validity.{Granted, acquire_valid}
use nestplatform.Redlock.Cluster.{
  Link, Sent, acquiring, releasing, attempt_on_clients, attempt_operation_on_client,
}
use nestplatform.Redlock.Cluster.Exclusion.{idle, operates, acquire_exclusive}
use nestplatform.Redlock.Execute.Retrying.{Terminates, retry, start}
use nestplatform.Redlock.Execute.Tie.{execute_tie}
use nestplatform.Redlock.Holding.Outliving.{with_lock_outlived}
use nestplatform.Redlock.Holding.{
  extension_succeeds, handler_settles, release_settles, releases, extends,
}
use nestplatform.Redlock.Execute.Termination.{attempted, execute_odd-Terminates}
use nestplatform.Redlock.Cluster.Refinement.{Refines, run_script-Refines}

abbrev Memory : Type 0
Memory = String → Option String

abbrev memory_set : Memory → String → String → ℤ → Option Memory
memory_set s k v (pos zero) = none
memory_set s k v (pos (suc n)) = some (λ j. if str_eq k j then some v else s j)
memory_set s k v (negsuc n) = none

memory_accepts :
    (s : Memory) (k v : String) (ttl : ℤ)
    → pos 1 ≤ℤ ttl
    → (s' : Memory) × (memory_set s k v ttl ≡ some s')
memory_accepts s k v (pos zero) h = absurd (omega arith)
memory_accepts s k v (pos (suc n)) h = ((λ j. if str_eq k j then some v else s j), refl)
memory_accepts s k v (negsuc n) h = absurd (omega arith)

memory_stores :
    (s : Memory) (k v : String) (ttl : ℤ) (s' : Memory)
    → memory_set s k v ttl ≡ some s'
    → (j : String) → s' j ≡ (if str_eq k j then some v else s j)
memory_stores s k v (pos zero) s' h j = cc
memory_stores s k v (pos (suc n)) s' h j =
    let g : Option Memory → Option String = λ o. elim o [ none ↦ none | some t ↦ t j ] in
    ap g (sym h)
memory_stores s k v (negsuc n) s' h j = cc

abbrev memory : Redis
memory = record {
  State = Memory;
  get = λ s k. s k;
  exists = λ s k. is_some (s k);
  del = λ s k j. if str_eq k j then none else s j;
  set_px = memory_set;
  exists-get = λ s k. refl;
  get-del = λ s k j. refl;
  set_px_accepts = memory_accepts;
  get-set_px = memory_stores;
}

abbrev empty : Memory
empty k = none

abbrev three_nodes : List Memory
three_nodes = empty ∷ empty ∷ empty ∷ []

abbrev answering : ℕ → Link
answering c = record { script_cached = false; evalsha = Sent.answered; eval = Sent.answered }

-- Lock `v` on key `a`, as three nodes grant it.
abbrev granted : List Memory
granted = (attempt_on_clients memory answering (acquiring "v" (pos 10)) ("a" ∷ []) 0 three_nodes).0

-- Another lock then tries the same key and another one, in vain.
abbrev tried : List Memory
tried = (attempt_on_clients memory answering (acquiring "w" (pos 10)) ("b" ∷ "a" ∷ []) 0 granted).0

abbrev all_for : List ClientExecutionResult
all_for = vote_for 0 1 ∷ vote_for 1 1 ∷ vote_for 2 1 ∷ []

abbrev all_against : List ClientExecutionResult
all_against =
    vote_against 0 resource_locked
    ∷ vote_against 1 resource_locked
    ∷ vote_against 2 resource_locked
    ∷ []

acquire_votes :
    (attempt_on_clients memory answering (acquiring "v" (pos 10)) ("a" ∷ []) 0 three_nodes).1
    ≡ all_for
unfolding attempt_on_clients attempt_operation_on_client acquire_script any_exists set_all
acquire_votes = refl

acquire_again_votes :
    (attempt_on_clients memory answering (acquiring "w" (pos 10)) ("a" ∷ []) 0 tried).1
    ≡ all_against
unfolding attempt_on_clients attempt_operation_on_client acquire_script any_exists set_all
acquire_again_votes = refl

in_order : (vs : List ClientExecutionResult) → Permᴰ (vs ++ []) vs
in_order [] = Permᴰ.nil
in_order (v ∷ vs) = Permᴰ.cons refl (in_order vs)

abbrev everything_arrived : (vs : List ClientExecutionResult) → OncePerClient vs → Arrivals vs vs
everything_arrived vs once = record { missing = []; reordered = ∣ in_order vs ∣₁; once = once }

acquire_exclusive_example : (attempt_operation 3 all_against).resolved ≢ some for
unfolding attempt_on_clients attempt_operation_on_client acquire_script any_exists set_all
    attempt_operation settle_votes on_result_resolve start_round quorum
acquire_exclusive_example =
    acquire_exclusive memory "a" "v" answering answering ("a" ∷ []) ("a" ∷ []) "w" (pos 10) (pos 10)
      three_nodes tried all_for all_against (omega arith) refl refl
      (everything_arrived all_for ((refl, (refl, tt)), ((refl, tt), (tt, tt)))) refl
      (operates answering (acquiring "w" (pos 10)) ("b" ∷ "a" ∷ []) granted tried tt (idle tried))
      (everything_arrived all_against ((refl, (refl, tt)), ((refl, tt), (tt, tt))))

abbrev mixed : List ClientExecutionResult
mixed = vote_for 2 1 ∷ vote_against 0 resource_locked ∷ vote_for 1 1 ∷ []

attempt_operation_decision_example :
    (((attempt_operation 3 mixed).resolved ≡ some for) ↔ (quorum 3 ≤ count_for mixed))
    × (((e : Error) × ((attempt_operation 3 mixed).resolved ≡ some (against e)))
        ↔ (quorum 3 ≤ count_against mixed))
    × (((attempt_operation 3 mixed).resolved ≡ none)
        ↔ ((count_for mixed < quorum 3) × (count_against mixed < quorum 3)))
    × ((attempt_operation 3 mixed).done ≡ true)
attempt_operation_decision_example =
    attempt_operation_decision 3 mixed (omega arith) refl
      ((refl, (refl, tt)), ((refl, tt), (tt, tt)))

-- A clock is the world: attempts fail up to 300 ms and succeed from then on.
abbrev pass : ℕ → ℕ → ℕ
pass ms now = now + ms

abbrev half : ℕ → Ratio
half now = record { num = 1; den = 2 }

abbrev no_stats : ExecutionStats
no_stats = record { membership_size = 3; quorum_size = 2; votes_for = []; votes_against = [] }

abbrev free_later : ℕ → Option (Attempted × ℕ)
free_later now = some (
  record {
    verdict = if ltb now 300 then against resource_locked else for;
    stats = no_stats;
    start = pos now;
  },
  now + 1,
)

-- The second retry succeeds, 402 ms after the start.
execute_retries :
    execute pass half default_redlock_config free_later 4 0
    ≡ returned (record { attempts = no_stats ∷ no_stats ∷ no_stats ∷ []; start = pos 402 }) 403
unfolding execute execute_loop
execute_retries = refl

execute-Explained_example :
    Explained pass half default_redlock_config free_later 3 0 []
      (execute pass half default_redlock_config free_later 4 0)
execute-Explained_example =
    execute-Explained pass half default_redlock_config free_later 3 4 0 (omega arith) refl

-- Three clients of which two vote in favour from 300 ms on; before, they vote against.
abbrev answers : ℕ → List ClientExecutionResult × ℕ
answers now = (if ltb now 300 then all_against else mixed, now + 1)

answers_complete : (u : ℕ) → (length (answers u).0 ≡ 3) × OncePerClient (answers u).0
answers_complete u = elim (Bool-cases (ltb u 300)) [
  | inl early ↦ rw early (refl, ((refl, (refl, tt)), ((refl, tt), (tt, tt))))
  | inr late ↦ rw late (refl, ((refl, (refl, tt)), ((refl, tt), (tt, tt))))
]

execute_odd-Terminates_example :
    Terminates pass half default_redlock_config
      (attempted (λ now. pos now) 3 answers)
      (execute pass half default_redlock_config (attempted (λ now. pos now) 3 answers) 4 0)
execute_odd-Terminates_example =
    execute_odd-Terminates (λ now. pos now) 3 answers pass half default_redlock_config 3 4 0 refl
      (omega arith) answers_complete refl (omega arith)

abbrev runtime : (ℕ → Option (Attempted × ℕ)) → Runtime
runtime attempt = record {
  W = ℕ;
  sleep = pass;
  random = half;
  now = λ now. pos now;
  fresh = λ now. ("v", now);
  attempt = λ op ks. attempt;
}

-- A TTL of 1000 ms from 402 on, less 10 ms of drift and 2 more.
abbrev lock_at_402 : RedLock
lock_at_402 = record {
  resources = "a" ∷ [];
  value = "v";
  attempts = no_stats ∷ no_stats ∷ no_stats ∷ [];
  expiration = pos 1390;
}

acquire_valid_example :
    Granted
      (runtime free_later)
      default_redlock_config
      ("a" ∷ [])
      1000
      no_override
      4
      "v"
      (execute_with
        (runtime free_later)
        default_redlock_config
        (acquiring "v" (pos 1000))
        ("a" ∷ [])
        no_override
        4
        0)
      403
      lock_at_402
unfolding acquire execute_with execute execute_loop with_override drift ◌+ℤ◌ ◌-ℤ◌
acquire_valid_example =
    acquire_valid (runtime free_later) default_redlock_config ("a" ∷ []) 1000 no_override 4 0 403
      lock_at_402 (omega arith) refl

release-acquire_example :
    memory.get
      (release_script memory
        ("a" ∷ "b" ∷ [])
        "v"
        (acquire_script memory ("a" ∷ "b" ∷ []) "v" (pos 10) empty).0).0
      "a"
    ≡ none
unfolding any_exists
release-acquire_example =
    release-acquire memory ("a" ∷ "b" ∷ []) "v" (pos 10) empty (omega arith) refl "a"

-- A world that is free: an extension at 500 ms succeeds at once.
abbrev held_at_402 : Holding
held_at_402 = begin lock_at_402

with_lock-Inv_example : Inv ("a" ∷ []) "v" (timer_fires held_at_402)
unfolding with_lock begin acquire execute_with execute execute_loop with_override drift ◌+ℤ◌ ◌-ℤ◌
with_lock-Inv_example =
    with_lock-Inv (runtime free_later) default_redlock_config ("a" ∷ []) (pos 1000) none no_override
      4 0 403 held_at_402 (timer_fires held_at_402) refl
      (next held_at_402 (timer_fires held_at_402) (timer_fires held_at_402)
        (fires held_at_402 0 refl) (here (timer_fires held_at_402)))

abbrev extended_at_500 : RedLock × Outcome RedLock ℕ
extended_at_500 =
    extend (runtime free_later) default_redlock_config lock_at_402 (millis (pos 1000)) no_override 4
      500

abbrev lock_at_500 : RedLock
lock_at_500 = record {
  resources = "a" ∷ [];
  value = "v";
  attempts = no_stats ∷ [];
  expiration = pos 1488;
}

abbrev ended : Holding
ended = handler_settles (timer_fires held_at_402)

with_lock_outlived_example :
    (((timer_fires held_at_402).in_flight ≡ 1)
      → ((extension_succeeds lock_at_500 (release_settles ended)).signal.aborted ≡ true)
        ⊎ ((extension_succeeds lock_at_500 (release_settles ended)).armed
              + (extension_succeeds lock_at_500 (release_settles ended)).in_flight
            ≡ 1))
    × (((timer_fires held_at_402).in_flight ≡ 0)
        → (extension_succeeds lock_at_500 (release_settles ended)).armed
            + (extension_succeeds lock_at_500 (release_settles ended)).in_flight
          ≡ 0)
unfolding begin timer_fires handler_settles release_settles extension_succeeds extend execute_with
    execute execute_loop with_override drift ◌+ℤ◌ ◌-ℤ◌
with_lock_outlived_example =
    with_lock_outlived (runtime free_later) default_redlock_config (pos 1000) 4 ("a" ∷ []) "v"
      (timer_fires held_at_402) (extension_succeeds lock_at_500 (release_settles ended))
      (ground arith) refl
      (next ended (release_settles ended) (extension_succeeds lock_at_500 (release_settles ended))
        (releases ended refl)
        (next (release_settles ended) (extension_succeeds lock_at_500 (release_settles ended))
          (extension_succeeds lock_at_500 (release_settles ended))
          (extends (release_settles ended) 0 extended_at_500.0 lock_at_500 500 501 refl refl)
          (here (extension_succeeds lock_at_500 (release_settles ended)))))

-- Two clients: both vote against before 300 ms, and one each way from then on.
abbrev both_against : List ClientExecutionResult
both_against = vote_against 0 resource_locked ∷ vote_against 1 resource_locked ∷ []

abbrev halves : List ClientExecutionResult
halves = vote_against 1 resource_locked ∷ vote_for 0 1 ∷ []

abbrev torn : ℕ → List ClientExecutionResult × ℕ
torn now = (if ltb now 300 then both_against else halves, now + 1)

abbrev locked_at : ℕ → Attempted
locked_at time = record {
  verdict = against resource_locked;
  stats = (attempt_operation 2 both_against).stats;
  start = pos time;
}

execute_tie_example :
    execute pass half default_redlock_config (attempted (λ now. pos now) 2 torn) 4 0 ≡ never_settles
unfolding attempt_operation settle_votes on_result_resolve start_round quorum
execute_tie_example =
    execute_tie (λ now. pos now) 1 torn pass half default_redlock_config 3 4 0 402
      ((locked_at 0).stats ∷ (locked_at 201).stats ∷ []) (omega arith) refl
      (retry 0 1 402 (locked_at 0) resource_locked ((locked_at 201).stats ∷ []) refl refl
        (retry 201 202 402 (locked_at 201) resource_locked [] refl refl (start 402)))
      (omega arith) (omega arith) ((refl, tt), (tt, tt)) refl refl

-- A release on a node where another lock has one of the two keys.
abbrev shared_node : Memory
shared_node k = if str_eq k "a" then some "v" else some "w"

run_script-Refines_example : Refines memory (releasing "v") ("a" ∷ "b" ∷ []) shared_node shared_node
run_script-Refines_example =
    run_script-Refines memory (releasing "v") ("a" ∷ "b" ∷ []) shared_node shared_node (omega arith)
      tt (λ j. refl)
