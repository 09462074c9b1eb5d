-- ===== src/Redlock/Service/Cleanup.antt =====
-- What acquire leaves behind when it throws.
use mathlib.Core.Path.{subst}
use nestplatform.Base.{ℕ, ◌≤◌, ◌<◌, ◌≡◌, refl, ap, sym, String, some, List, [], arith, length}
use nestplatform.Base.Int.{ℤ}
use nestplatform.Redlock.Voting.{Verdict, for, against}
use nestplatform.Redlock.Execute.{
  RedlockConfig, ExecutionResult, Outcome, returned, threw, never_settles, out_of_fuel, Thrown,
  Attempted,
}
use nestplatform.Redlock.Execute.Retrying.{Ends, Explained, execute-Explained, Retries-none}
use nestplatform.Redlock.Cluster.{Operation, acquiring, releasing}
use nestplatform.Redlock.Service.{
  millis, Override, Runtime, execute_with, rethrow, acquired, acquire, once_only, with_override,
}

module _ (t : Runtime) (config : RedlockConfig) (ks : List String) where
  open t use {W, sleep, random, fresh, attempt}

  once_only-Explained :
      (op : Operation) (fuel : ℕ) (w : W)
      → 0 < fuel
      → Explained sleep random
          (with_override config once_only)
          (attempt op ks)
          0
          w
          []
          (execute_with t config op ks once_only fuel w)
  unfolding execute_with with_override
  once_only-Explained op fuel w h =
      execute-Explained sleep random (with_override config once_only) (attempt op ks) 0 fuel w h
        refl

  -- One attempt from `w` settles and leaves `w'`.
  abbrev pub OneAttempt : Operation → W → W → Type 0
  OneAttempt op w w' = (a : Attempted) × (attempt op ks w ≡ some (a, w'))

  one_attempt :
      (op : Operation) (w w' : W) (v : Verdict)
      → (e : Ends sleep random (with_override config once_only) (attempt op ks) w v w')
      → length e.failed ≤ 0
      → OneAttempt op w w'
  one_attempt op w w' v e h = (
    e.last,
    subst (λ u. attempt op ks u ≡ some (e.last, w'))
        (sym
          (Retries-none sleep random (with_override config once_only) (attempt op ks) e.retries h))
        e.settled,
  )

  rethrow_cleans :
      (op : Operation) (x y : Thrown) (w w' : W) (r : Outcome ExecutionResult W)
      → Explained sleep random (with_override config once_only) (attempt op ks) 0 w [] r
      → rethrow t config x r ≡ threw y w'
      → (x ≡ y) × OneAttempt op w w'
  rethrow_cleans op x y w w' (returned r u) (e, s, l, b) h = (
    ground arith,
    subst (OneAttempt op w) (ground arith) (one_attempt op w u for e (omega arith)),
  )
  rethrow_cleans op x y w w' (threw z u) (err, e, s, b) h = (
    ground arith,
    subst (OneAttempt op w) (ground arith) (one_attempt op w u (against err) e (omega arith)),
  )
  rethrow_cleans op x y w w' never_settles t h = cc
  rethrow_cleans op x y w w' out_of_fuel t h = cc

  acquired_cleans :
      (v : String) (o : Override) (d : ℤ) (fuel : ℕ) (x : Outcome ExecutionResult W) (y : Thrown)
      (w' : W)
      → 0 < fuel
      → acquired t config ks v o d fuel x ≡ threw y w'
      → (u : W) × (x ≡ threw y u) × OneAttempt (releasing v) u w'
  acquired_cleans v o d fuel (returned r u) y w' h e = cc
  acquired_cleans v o d fuel (threw x u) y w' h e =
      let (same, one) =
        rethrow_cleans (releasing v) x y u w'
          (execute_with t config (releasing v) ks once_only fuel u)
          (once_only-Explained (releasing v) fuel u h) e in
      (u, ap (λ z. threw z u) same, one)
  acquired_cleans v o d fuel never_settles y w' h e = cc
  acquired_cleans v o d fuel out_of_fuel y w' h e = cc

  -- When acquire throws for an integer duration, its acquisition threw the same error, and exactly
  -- one attempt to release the same value on the same resources came after it.
  pub acquire_cleans_up :
      (d : ℤ) (o : Override) (fuel : ℕ) (w w' : W) (x : Thrown)
      → 0 < fuel
      → acquire t config ks (millis d) o fuel w ≡ threw x w'
      → (u : W) × (execute_with t config (acquiring (fresh w).0 d) ks o fuel (fresh w).1
          ≡ threw x u)
        × OneAttempt (releasing (fresh w).0) u w'
  unfolding acquire
  acquire_cleans_up d o fuel w w' x h e =
      acquired_cleans (fresh w).0 o d fuel
        (execute_with t config (acquiring (fresh w).0 d) ks o fuel (fresh w).1) x w' h e
