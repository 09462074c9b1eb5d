-- ===== src/Redlock/Execute/Termination.antt =====
-- `_execute` over the attempts of `_attemptOperation`: when an operation comes to an end.
use nestplatform.Base.{ℕ, ◌%◌, ◌<◌, ◌≡◌, ◌≢◌, refl, Option, none, some, List, length}
use nestplatform.Base.Int.{ℤ, pos}
use nestplatform.Redlock.Voting.{ClientExecutionResult, Verdict, Round, attempt_operation}
use nestplatform.Redlock.Voting.Quorum.{OncePerClient}
use nestplatform.Redlock.Voting.Decision.{attempt_operation_odd}
use nestplatform.Redlock.Execute.{Ratio, RedlockConfig, Attempted, execute}
use nestplatform.Redlock.Execute.Retrying.{Terminates, execute-Terminates}

module _ {W : Type 0} (now : W → ℤ) (n : ℕ) (answers : W → List ClientExecutionResult × W) where
  abbrev resolved_with : ℤ → Round → W → Option Verdict → Option (Attempted × W)
  resolved_with start t w none = none
  resolved_with start t w (some v) =
      some (record { verdict = v; stats = t.stats; start = start }, w)

  -- One attempt: `answers` gives the results of the clients in the order of their arrival, and the
  -- world then.
  abbrev pub attempted : W → Option (Attempted × W)
  attempted w =
      let (results, w') = answers w in
      let t = attempt_operation n results in resolved_with (now w) t w' t.resolved

  attempted_some :
      (w : W) (t : Round) (w' : W) (o : Option Verdict)
      → o ≢ none
      → resolved_with (now w) t w' o ≢ none
  attempted_some w t w' none settled h = settled refl
  attempted_some w t w' (some v) settled h = cc

  -- An operation over an odd number of clients, of which in every attempt each answers once, and with
  -- a retry count of `r`, comes to an end with a result or an exception; fuel for `r + 1` attempts is
  -- enough.
  pub execute_odd-Terminates :
      (sleep : ℕ → W → W) (random : W → Ratio) (config : RedlockConfig) (r fuel : ℕ) (w : W)
      → n % 2 ≡ 1
      → 0 < n
      → ((u : W) → (length (answers u).0 ≡ n) × OncePerClient (answers u).0)
      → config.retry_count ≡ pos r
      → r < fuel
      → Terminates sleep random config attempted (execute sleep random config attempted fuel w)
  execute_odd-Terminates sleep random config r fuel w odd members all finite enough =
      execute-Terminates sleep random config attempted r fuel w enough finite (λ u.
        attempted_some u (attempt_operation n (answers u).0) (answers u).1
          (attempt_operation n (answers u).0).resolved
          (attempt_operation_odd n (answers u).0 members (all u).0 (all u).1 odd))
