-- ===== src/Redlock/Execute/Tie.antt =====
-- `_execute` over the attempts of `_attemptOperation`: an operation that meets a tie of votes.
use nestplatform.Base.{
  ℕ, zero, suc, ◌+◌, ◌≤◌, ◌<◌, ◌≡◌, refl, Option, none, some, true, List, [], ◌∷◌, ◌++◌, length,
  length-append, ltb, arith,
}
use nestplatform.Base.Int.{ℤ, pos}
use nestplatform.Redlock.Voting.{ClientExecutionResult, ExecutionStats}
use nestplatform.Redlock.Voting.Quorum.{OncePerClient, count_for, count_against}
use nestplatform.Redlock.Voting.Decision.{attempt_operation_tie}
use nestplatform.Redlock.Execute.{
  Ratio, RedlockConfig, Attempted, never_settles, execute_loop, execute,
}
use nestplatform.Redlock.Execute.Retrying.{Retries, start, retry}
use nestplatform.Redlock.Execute.Termination.{attempted}

module _ {W : Type 0} (sleep : ℕ → W → W) (random : W → Ratio) (config : RedlockConfig)
    (attempt : W → Option (Attempted × W)) where
  -- The loop stops at the first attempt that does not settle.
  execute_loop_hangs :
      (most fuel : ℕ) (prior : List ExecutionStats) {w u : W} {failed : List ExecutionStats}
      → Retries sleep random config attempt w failed u
      → length prior + length failed < most
      → length failed < fuel
      → attempt u ≡ none
      → execute_loop sleep random config attempt (some most) fuel prior w ≡ never_settles
  unfolding execute_loop
  execute_loop_hangs most zero prior retries few enough hangs = absurd (omega arith)
  execute_loop_hangs most (suc fuel) prior (start w) few enough hangs =
      rw (hangs, execute_loop) refl
  execute_loop_hangs most (suc fuel) prior (retry w w' u a e rest settles voted retries) few enough
        hangs =
      let more : ltb (length (prior ++ a.stats ∷ [])) most ≡ true =
        ground (arith, length-append prior (a.stats ∷ [])) in
      rw (settles, voted, more, execute_loop)
        (execute_loop_hangs most fuel (prior ++ a.stats ∷ []) retries
          (omega (arith, length-append prior (a.stats ∷ []))) (omega arith) hangs)

module _ {W : Type 0} (now : W → ℤ) (k : ℕ) (answers : W → List ClientExecutionResult × W)
    (sleep : ℕ → W → W) (random : W → Ratio) (config : RedlockConfig) where
  -- An operation over `2 k` clients, with a retry count of `r`: if at most `r` attempts are voted down,
  -- each followed by a wait, and all clients answer the next attempt with half of them for and half
  -- against it, the operation never settles: it neither returns, nor throws, nor makes a retry that is
  -- left. Fuel for `r + 1` attempts is enough.
  pub execute_tie :
      (r fuel : ℕ) (w u : W) (failed : List ExecutionStats)
      → 0 < k
      → config.retry_count ≡ pos r
      → Retries sleep random config (attempted now (k + k) answers) w failed u
      → length failed ≤ r
      → r < fuel
      → OncePerClient (answers u).0
      → count_for (answers u).0 ≡ k
      → count_against (answers u).0 ≡ k
      → execute sleep random config (attempted now (k + k) answers) fuel w ≡ never_settles
  unfolding execute
  execute_tie r fuel w u failed some_clients finite retries few enough once fors againsts =
      let tie = attempt_operation_tie k (answers u).0 some_clients once fors againsts in
      rw finite (
        execute_loop_hangs sleep random config (attempted now (k + k) answers) (suc r) fuel []
          retries (omega arith) (omega arith) (rw (tie.0) refl))
