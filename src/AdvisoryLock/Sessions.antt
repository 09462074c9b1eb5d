-- ===== src/AdvisoryLock/Sessions.antt =====
-- What sessions hold after `acquire`, whether it succeeds or not, and after `release`.
use nestplatform.Base.{
  ℕ, ◌+◌, ◌-◌, ◌<◌, ◌≡◌, ◌⊎◌, refl, ap, sym, ◌∙◌, String, some, true, false, List, [], ◌∷◌, ◌++◌,
  ◌==◌, ==_iff, if◌then◌else◌, arith, count_p, Bool-cases, inl, inr,
}
use nestplatform.AdvisoryLock.{
  AdvisoryServer, Tried, granted, refused, failed, resource_locked_exception, ok, throw, PgLock,
  World, go_on, lock_each, settled, acquire, unlock_each, release,
}

go_on-granted :
    (server : AdvisoryServer) (hash_key : String → ℕ) (x : server.State × Tried)
    (f : server.State → server.State × Tried) (s' : server.State)
    → go_on server hash_key x f ≡ (s', granted)
    → (t : server.State) × (x ≡ (t, granted)) × (f t ≡ (s', granted))
go_on-granted server hash_key (s, granted) f s' h = (s, refl, h)
go_on-granted server hash_key (s, refused) f s' h = cc
go_on-granted server hash_key (s, failed) f s' h = cc

module _ (server : AdvisoryServer) (hash_key : String → ℕ) where
  open server use {State, held, try_lock, unlock}

  -- How many of the resources have the key.
  abbrev pub times : ℕ → List String → ℕ
  times k = count_p (λ r. hash_key r == k)

  lock_each-granted :
      (c : ℕ) (rs : List String) (s s' : State)
      → lock_each server hash_key c rs s ≡ (s', granted)
      → (d k : ℕ) → held s' d k ≡ held s d k + (if c == d then times k rs else 0)
  unfolding lock_each
  lock_each-granted c [] s s' h d k =
      let same : s ≡ s' = ap (λ (x : State × Tried). x.0) h in
      ground (arith, ap (λ t. held t d k) same)
  lock_each-granted c (r ∷ rs) s s' h d k =
      let (t, first, rest) =
        go_on-granted server hash_key (try_lock c (hash_key r) s) (lock_each server hash_key c rs)
          s' h in
      ground (
        arith,
        server.held-granted c (hash_key r) s t first d k,
        lock_each-granted c rs t s' rest d k,
        ==_iff c d,
      )

  lock_each_alone :
      (c : ℕ) (rs : List String) (s s' : State) (d k : ℕ)
      → lock_each server hash_key c rs s ≡ (s', granted)
      → (c == d) ≡ false
      → 0 < times k rs
      → held s' d k ≡ 0
  unfolding lock_each
  lock_each_alone c [] s s' d k h other named = absurd (omega arith)
  lock_each_alone c (r ∷ rs) s s' d k h other named =
      let (t, first, rest) =
        go_on-granted server hash_key (try_lock c (hash_key r) s) (lock_each server hash_key c rs)
          s' h in
      elim (Bool-cases (hash_key r == k)) [
        | inl here ↦
            let same : hash_key r ≡ k = (==_iff (hash_key r) k).0 here in
            let free : held s d k ≡ 0 =
              ap (held s d) (sym same) ∙ server.granted_alone c (hash_key r) s t first d other in
            ground (
              arith,
              free,
              server.held-granted c (hash_key r) s t first d k,
              lock_each-granted c rs t s' rest d k,
            )
        | inr elsewhere ↦ lock_each_alone c rs t s' d k rest other (ground arith)
      ]

  -- A loop that is refused at one resource, after it was granted those before.
  lock_each_refused :
      (c : ℕ) (before later : List String) (r : String) (s t t' : State)
      → lock_each server hash_key c before s ≡ (t, granted)
      → try_lock c (hash_key r) t ≡ (t', refused)
      → lock_each server hash_key c (before ++ r ∷ later) s ≡ (t', refused)
  unfolding lock_each
  lock_each_refused c [] later r s t t' h refusal =
      let same : s ≡ t = ap (λ (x : State × Tried). x.0) h in
      ap
        (λ u. go_on server hash_key (try_lock c (hash_key r) u) (lock_each server hash_key c later))
        same
      ∙ ap (λ x. go_on server hash_key x (lock_each server hash_key c later)) refusal
  lock_each_refused c (q ∷ qs) later r s t t' h refusal =
      let (u, first, rest) =
        go_on-granted server hash_key (try_lock c (hash_key q) s) (lock_each server hash_key c qs) t
          h in
      ap (λ x. go_on server hash_key x (lock_each server hash_key c (qs ++ r ∷ later))) first
      ∙ lock_each_refused c qs later r u t t' rest refusal

  settled_ok :
      (c : ℕ) (rs : List String) (e : ℕ) (w w' : World server hash_key) (l : PgLock)
      (x : State × Tried)
      → settled server hash_key c rs e w x ≡ (w', ok l)
      → (x ≡ (w'.locks, granted)) × (l.client ≡ c) × (l.resources ≡ rs) × (l.expiration ≡ e)
  settled_ok c rs e w w' l (s, granted) h = ground arith
  settled_ok c rs e w w' l (s, refused) h = cc
  settled_ok c rs e w w' l (s, failed) h = cc

  -- A lock that is acquired is held by its session alone: every key of its resources has one hold
  -- more for each resource with that key, no other session holds it, and all other holds are as
  -- before.
  pub acquire_holds :
      (c now duration : ℕ) (rs : List String) (w w' : World server hash_key) (l : PgLock)
      → acquire server hash_key c now rs duration w ≡ (w', ok l)
      → (d k : ℕ)
      → (held w'.locks d k ≡ held w.locks d k + (if c == d then times k rs else 0))
        × (((c == d) ≡ true) ⊎ ((times k rs ≡ 0) ⊎ (held w'.locks d k ≡ 0)))
  unfolding acquire
  acquire_holds c now duration rs w w' l h d k =
      let (all, _, _, _) =
        settled_ok c rs (now + duration) w w' l (lock_each server hash_key c rs w.locks) h in
      (
        lock_each-granted c rs w.locks w'.locks all d k,
        elim (Bool-cases (c == d)) [
          | inl same ↦ inl same
          | inr other ↦ elim (Bool-cases (0 == times k rs)) [
            | inl unnamed ↦ inr (inl (ground arith))
            | inr named ↦
                inr (inr (lock_each_alone c rs w.locks w'.locks d k all other (ground arith)))
          ]
        ],
      )

  -- When a later resource is refused, acquire throws ResourceLockedException and gives the session
  -- back to the pool, but the session still holds the keys of the resources before it.
  pub acquire_leaks :
      (c now duration : ℕ) (before later : List String) (r : String) (w : World server hash_key)
      (t t' : State)
      → lock_each server hash_key c before w.locks ≡ (t, granted)
      → try_lock c (hash_key r) t ≡ (t', refused)
      → (acquire server hash_key c now (before ++ r ∷ later) duration w
          ≡ (record w { locks = t'; idle = c ∷ w.idle }, throw resource_locked_exception))
        × ((k : ℕ) → held t' c k ≡ held w.locks c k + times k before)
  unfolding acquire
  acquire_leaks c now duration before later r w t t' h refusal = (
    ap (settled server hash_key c (before ++ r ∷ later) (now + duration) w)
        (lock_each_refused c before later r w.locks t t' h refusal),
    λ k. ground (
      arith,
      server.held-refused c (hash_key r) t t' refusal c k,
      lock_each-granted c before w.locks t h c k,
      ==_iff c c,
    ),
  )

  unlock_each_holds :
      (c : ℕ) (rs : List String) (s : State) (d k : ℕ)
      → ((e j : ℕ) (t : State) → (t' : State) × (unlock e j t ≡ some t'))
      → held (unlock_each server hash_key c rs s) d k
        ≡ held s d k - (if c == d then times k rs else 0)
  unfolding unlock_each
  unlock_each_holds c [] s d k accepts = ground arith
  unlock_each_holds c (r ∷ rs) s d k accepts =
      let (t, done) = accepts c (hash_key r) s in
      rw (done, unlock_each)
        (ground (
          arith,
          server.held-unlock c (hash_key r) s t done d k,
          unlock_each_holds c rs t d k accepts,
          ==_iff c d,
        ))

  -- Releasing a lock right after it was acquired gives every session its first holds back, when
  -- no unlock query fails.
  pub release-acquire_advisory :
      (c now duration : ℕ) (rs : List String) (w w' : World server hash_key) (l : PgLock)
      → ((e j : ℕ) (t : State) → (t' : State) × (unlock e j t ≡ some t'))
      → acquire server hash_key c now rs duration w ≡ (w', ok l)
      → (d k : ℕ) → held (release server hash_key l w').locks d k ≡ held w.locks d k
  unfolding acquire release
  release-acquire_advisory c now duration rs w w' l accepts h d k =
      let (all, who, what, _) =
        settled_ok c rs (now + duration) w w' l (lock_each server hash_key c rs w.locks) h in
      ap (λ x. held (unlock_each server hash_key x l.resources w'.locks) d k) who
      ∙ ap (λ x. held (unlock_each server hash_key c x w'.locks) d k) what
      ∙ unlock_each_holds c rs w'.locks d k accepts
      ∙ omega (arith, lock_each-granted c rs w.locks w'.locks all d k)
