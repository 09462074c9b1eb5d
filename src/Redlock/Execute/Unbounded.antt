-- ===== src/Redlock/Execute/Unbounded.antt =====
-- `_execute` with no bound on its retries.
use mathlib.Core.Path.{subst}
use nestplatform.Base.{
  ℕ, zero, suc, ◌≡◌, refl, ap, sym, Option, none, some, [], ◌∷◌, inl, inr, Option-cases,
}
use nestplatform.Base.Int.{negsuc}
use nestplatform.Redlock.Voting.{Error, for, against}
use nestplatform.Redlock.Execute.{
  Ratio, RedlockConfig, Attempted, ExecutionResult, Outcome, returned, threw, never_settles,
  out_of_fuel, max_attempts, wait_time, execute_loop, execute,
}
use nestplatform.Redlock.Execute.Retrying.{retry, Ends, ended, Verdict-cases}

module _ {W : Type 0} (sleep : ℕ → W → W) (random : W → Ratio) (config : RedlockConfig)
    (attempt : W → Option (Attempted × W)) where
  -- What an outcome says when there is no bound on the retries.
  abbrev pub Unbounded : W → Outcome ExecutionResult W → Type 0
  Unbounded w (returned r w') =
      (t : Ends sleep random config attempt w for w') × (r.start ≡ t.last.start) × (r.attempts ≡ [])
  Unbounded w (threw x w') = ⊥
  Unbounded w never_settles = Unit
  Unbounded w out_of_fuel = Unit

  Unbounded-retry :
      (w w' : W) (a : Attempted) (e : Error) (o : Outcome ExecutionResult W)
      → attempt w ≡ some (a, w')
      → a.verdict ≡ against e
      → Unbounded (sleep (wait_time config (random w')) w') o
      → Unbounded w o
  Unbounded-retry w w' a e (returned r u) h v (t, s, l) = (
    record {
      failed = a.stats ∷ t.failed;
      before = t.before;
      last = t.last;
      retries = retry w w' t.before a e t.failed h v t.retries;
      settled = t.settled;
      decided = t.decided;
    },
    s,
    l,
  )
  Unbounded-retry w w' a e (threw x u) h v t = t
  Unbounded-retry w w' a e never_settles h v t = tt
  Unbounded-retry w w' a e out_of_fuel h v t = tt

  execute_loop-Unbounded :
      (fuel : ℕ) (w : W) → Unbounded w (execute_loop sleep random config attempt none fuel [] w)
  unfolding execute_loop
  execute_loop-Unbounded zero w = tt
  execute_loop-Unbounded (suc fuel) w = elim (Option-cases (attempt w)) [
    | inl hangs ↦ rw (hangs, execute_loop) tt
    | inr ((a, w'), settles) ↦ elim (Verdict-cases a.verdict) [
      | inl yes_vote ↦
          rw (settles, yes_vote, execute_loop)
            (ended sleep random config attempt w w' a for settles yes_vote, refl, refl)
      | inr (e, voted) ↦
          let next = sleep (wait_time config (random w')) w' in
          rw (settles, voted, execute_loop)
            (Unbounded-retry w w' a e (execute_loop sleep random config attempt none fuel [] next)
              settles voted (execute_loop-Unbounded fuel next))
    ]
  ]

  -- With a retry count of -1 the operation, run for any number of rounds, throws nothing and keeps
  -- no statistics; what it returns is what an attempt in favour started with.
  pub execute-Unbounded :
      (fuel : ℕ) (w : W)
      → config.retry_count ≡ negsuc 0
      → Unbounded w (execute sleep random config attempt fuel w)
  unfolding execute
  execute-Unbounded fuel w infinite =
      subst (λ m. Unbounded w (execute_loop sleep random config attempt m fuel [] w))
        (sym (ap max_attempts infinite)) (execute_loop-Unbounded fuel w)
