-- ===== src/Redlock/Execute/Retrying.antt =====
-- `_execute` against its description: attempts that fail, a wait after each, and one that decides.
use mathlib.Core.Path.{subst}
use nestplatform.Base.{
  ◌≢◌, ℕ, zero, suc, ◌+◌, ◌≤◌, ◌<◌, ◌≡◌, refl, ◌∙◌, ap, sym, Option, none, some, List, [], ◌∷◌,
  ◌++◌, ltb, length, length-append, append_assoc, arith, inl, inr, Bool-cases, Option-cases, ◌⊎◌,
}
use nestplatform.Base.Int.{pos}
use nestplatform.Redlock.Voting.{Error, ExecutionStats, Verdict, for, against}
use nestplatform.Redlock.Execute.{
  Ratio, RedlockConfig, Attempted, ExecutionResult, Outcome, returned, threw, never_settles,
  out_of_fuel, max_attempts, wait_time, failure, execute_loop, execute,
}

pub Verdict-cases : (v : Verdict) → (v ≡ for) ⊎ ((e : Error) × (v ≡ against e))
Verdict-cases for = inl refl
Verdict-cases (against e) = inr (e, refl)

module _ {W : Type 0} (sleep : ℕ → W → W) (random : W → Ratio) (config : RedlockConfig)
    (attempt : W → Option (Attempted × W)) where
  -- Attempts that were voted down, one after another, with a wait after each.
  pub data Retries : W → List ExecutionStats → W → Type 0 where
    start : (w : W) → Retries w [] w
    retry :
        (w w' u : W) (a : Attempted) (e : Error) (rest : List ExecutionStats)
        → attempt w ≡ some (a, w')
        → a.verdict ≡ against e
        → Retries (sleep (wait_time config (random w')) w') rest u
        → Retries w (a.stats ∷ rest) u

  -- Failed attempts from `w`, and then an attempt that settles with the verdict, which leaves `w'`.
  pub record Ends (w : W) (verdict : Verdict) (w' : W) : Type 0 where
    pub failed : List ExecutionStats
    pub before : W
    pub last : Attempted
    pub retries : Retries w failed before
    pub settled : attempt before ≡ some (last, w')
    pub decided : last.verdict ≡ verdict

  abbrev pub ended :
      (w w' : W) (a : Attempted) (v : Verdict)
      → attempt w ≡ some (a, w')
      → a.verdict ≡ v
      → Ends w v w'
  ended w w' a v settles decided = record {
    failed = [];
    before = w;
    last = a;
    retries = start w;
    settled = settles;
    decided = decided;
  }

  module _ (n : ℕ) where
    -- What an outcome says, with the statistics of the attempts made before.
    abbrev pub Explained : W → List ExecutionStats → Outcome ExecutionResult W → Type 0
    Explained w prior (returned r w') =
        (t : Ends w for w') × (r.start ≡ t.last.start)
        × (r.attempts ≡ prior ++ (t.failed ++ t.last.stats ∷ []))
        × (length prior + length t.failed ≤ n)
    Explained w prior (threw x w') =
        (e : Error) × (t : Ends w (against e) w') × (x
          ≡ failure e (prior ++ (t.failed ++ t.last.stats ∷ [])))
        × (length prior + length t.failed ≡ n)
    Explained w prior never_settles =
        (failed : List ExecutionStats) × (u : W) × Retries w failed u
        × (attempt u ≡ none)
        × (length prior + length failed ≤ n)
    Explained w prior out_of_fuel = ⊥

    -- One failed attempt in front.
    Explained-retry :
        (w w' : W) (prior : List ExecutionStats) (a : Attempted) (e : Error)
        (o : Outcome ExecutionResult W)
        → attempt w ≡ some (a, w')
        → a.verdict ≡ against e
        → Explained (sleep (wait_time config (random w')) w') (prior ++ a.stats ∷ []) o
        → Explained w prior o
    Explained-retry w w' prior a e (returned r u) h v (t, s, l, b) = (
      record {
        failed = a.stats ∷ t.failed;
        before = t.before;
        last = t.last;
        retries = retry w w' t.before a e t.failed h v t.retries;
        settled = t.settled;
        decided = t.decided;
      },
      s,
      l ∙ append_assoc prior (a.stats ∷ []) (t.failed ++ t.last.stats ∷ []),
      omega (arith, length-append prior (a.stats ∷ [])),
    )
    Explained-retry w w' prior a e (threw x u) h v (e', t, s, b) = (
      e',
      record {
        failed = a.stats ∷ t.failed;
        before = t.before;
        last = t.last;
        retries = retry w w' t.before a e t.failed h v t.retries;
        settled = t.settled;
        decided = t.decided;
      },
      s ∙ ap (failure e') (append_assoc prior (a.stats ∷ []) (t.failed ++ t.last.stats ∷ [])),
      omega (arith, length-append prior (a.stats ∷ [])),
    )
    Explained-retry w w' prior a e never_settles h v (failed, u, t, s, b) = (
      a.stats ∷ failed,
      u,
      retry w w' u a e failed h v t,
      s,
      omega (arith, length-append prior (a.stats ∷ [])),
    )
    Explained-retry w w' prior a e out_of_fuel h v x = x

    execute_loop-Explained :
        (fuel : ℕ) (prior : List ExecutionStats) (w : W)
        → length prior ≤ n
        → n < length prior + fuel
        → Explained w prior (execute_loop sleep random config attempt (some (suc n)) fuel prior w)
    unfolding execute_loop
    execute_loop-Explained zero prior w h k = absurd (omega arith)
    execute_loop-Explained (suc fuel) prior w h k = elim (Option-cases (attempt w)) [
      | inl hangs ↦ rw (hangs, execute_loop) ([], w, start w, hangs, omega arith)
      | inr ((a, w'), settles) ↦ elim (Verdict-cases a.verdict) [
        | inl yes_vote ↦
            rw (settles, yes_vote, execute_loop)
              (ended w w' a for settles yes_vote, refl, refl, omega arith)
        | inr (e, voted) ↦ elim (Bool-cases (ltb (length (prior ++ a.stats ∷ [])) (suc n))) [
          | inl more ↦
              let room : suc (length prior) ≤ n =
                ground (arith, length-append prior (a.stats ∷ [])) in
              rw (settles, voted, more, execute_loop)
                (Explained-retry w w' prior a e
                  (execute_loop sleep random config attempt (some (suc n)) fuel
                    (prior ++ a.stats ∷ []) (sleep (wait_time config (random w')) w'))
                  settles voted
                  (execute_loop-Explained fuel (prior ++ a.stats ∷ [])
                    (sleep (wait_time config (random w')) w')
                    (omega (arith, length-append prior (a.stats ∷ [])))
                    (omega (arith, length-append prior (a.stats ∷ [])))))
          | inr last ↦
              rw (settles, voted, last, execute_loop)
                (
                  e,
                  ended w w' a (against e) settles voted,
                  refl,
                  ground (arith, length-append prior (a.stats ∷ [])),
                )
        ]
      ]
    ]

    -- With a retry count of `n`, fuel for `n + 1` attempts is enough. The operation returns exactly
    -- what the first attempt in favour started with, after at most `n` failed attempts and with the
    -- statistics of all; it throws only after `n + 1` failed attempts, ResourceLockedException if
    -- the last one failed with that and LockExecutionException with all statistics if not; or one of
    -- its first `n + 1` attempts never settles.
    pub execute-Explained :
        (fuel : ℕ) (w : W)
        → n < fuel
        → config.retry_count ≡ pos n
        → Explained w [] (execute sleep random config attempt fuel w)
    unfolding execute
    execute-Explained fuel w enough finite =
        subst (λ m. Explained w [] (execute_loop sleep random config attempt m fuel [] w))
          (sym (ap max_attempts finite))
          (execute_loop-Explained fuel [] w (omega arith) (omega arith))

  -- It came to an end: with a result or with an exception.
  abbrev pub Terminates : Outcome ExecutionResult W → Type 0
  Terminates (returned r w) = Unit
  Terminates (threw x w) = Unit
  Terminates never_settles = ⊥
  Terminates out_of_fuel = ⊥

  Explained-Terminates :
      (n : ℕ) (w : W) (o : Outcome ExecutionResult W)
      → ((u : W) → attempt u ≢ none)
      → Explained n w [] o
      → Terminates o
  Explained-Terminates n w (returned r w') settles h = tt
  Explained-Terminates n w (threw x w') settles h = tt
  Explained-Terminates n w never_settles settles (failed, u, retries, hangs, few) = settles u hangs
  Explained-Terminates n w out_of_fuel settles h = h

  -- If every attempt settles and there is fuel for `n + 1` attempts, the loop of an operation with a
  -- retry count of `n` comes to an end, with a result or with an exception.
  pub execute-Terminates :
      (n fuel : ℕ) (w : W)
      → n < fuel
      → config.retry_count ≡ pos n
      → ((u : W) → attempt u ≢ none)
      → Terminates (execute sleep random config attempt fuel w)
  execute-Terminates n fuel w enough finite settles =
      Explained-Terminates n w (execute sleep random config attempt fuel w) settles
        (execute-Explained n fuel w enough finite)

  pub Retries-none :
      {w u : W} {failed : List ExecutionStats} → Retries w failed u → length failed ≤ 0 → w ≡ u
  Retries-none (start w) h = refl
  Retries-none (retry w w' u a e rest settles voted r) h = absurd (omega arith)
