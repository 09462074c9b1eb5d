-- ===== src/Redlock/Scripts/Frame.antt =====
-- What the scripts of one lock leave alone: the keys that it does not name, and the keys that
-- another lock holds.
use nestplatform.Base.{
  mem_key, ℕ, ◌+◌, ◌≡◌, ◌≢◌, refl, String, some, true, false, List, [], ◌∷◌, str_eq_iff,
  if◌then◌else◌, arith, inl, inr, Bool-cases, Option-cases,
}
use nestplatform.Base.Int.{ℤ}
use nestplatform.Redlock.Redis.{Redis}
use nestplatform.Redlock.Scripts.{
  reads_as, any_exists, any_differs, set_all, acquire_script, extend_script, release_loop,
  release_script,
}

module _ (r : Redis) (j : String) where
  open r use {State, get, exists, del, set_px}

  -- A completed run of SETs writes exactly the keys named.
  pub get-set_all :
      (ks : List String) (v : String) (ttl : ℤ) (s : State)
      → (set_all r ks v ttl s).1 ≡ true
      → get (set_all r ks v ttl s).0 j ≡ (if mem_key j ks then some v else get s j)
  unfolding set_all
  get-set_all [] v ttl s e = ground arith
  get-set_all (k ∷ ks) v ttl s e = elim (Option-cases (set_px s k v ttl)) [
    | inl stopped ↦ absurd (ground arith)
    | inr (t, done) ↦ ground (arith, r.get-set_px s k v ttl t done j, get-set_all ks v ttl t)
  ]

  -- A run of SETs, completed or not, leaves a key that it does not name.
  pub get-set_all_other :
      (ks : List String) (v : String) (ttl : ℤ) (s : State)
      → mem_key j ks ≡ false
      → get (set_all r ks v ttl s).0 j ≡ get s j
  unfolding set_all
  get-set_all_other [] v ttl s e = refl
  get-set_all_other (k ∷ ks) v ttl s e = elim (Option-cases (set_px s k v ttl)) [
    | inl stopped ↦ ground arith
    | inr (t, done) ↦ ground (arith, r.get-set_px s k v ttl t done j, get-set_all_other ks v ttl t)
  ]

  pub any_exists_of_held :
      (ks : List String) (v : String) (s : State)
      → get s j ≡ some v
      → mem_key j ks ≡ true
      → any_exists r s ks ≡ true
  unfolding any_exists
  any_exists_of_held [] v s h m = cc
  any_exists_of_held (k ∷ ks) v s h m =
      ground (arith, str_eq_iff k j, r.exists-get s k, any_exists_of_held ks v s h)

  pub any_differs_of_held :
      (ks : List String) (v w : String) (s : State)
      → get s j ≡ some v
      → v ≢ w
      → mem_key j ks ≡ true
      → any_differs r s ks w ≡ true
  unfolding any_differs
  any_differs_of_held [] v w s h ne m = cc
  any_differs_of_held (k ∷ ks) v w s h ne m =
      ground (arith, str_eq_iff k j, str_eq_iff v w, any_differs_of_held ks v w s h ne)

  module _ (v w : String) (s : State) (held : get s j ≡ some v) where
    -- An acquire run, by whatever lock, keeps every key that is held.
    pub acquire_script_keeps :
        (ks : List String) (ttl : ℤ) → get (acquire_script r ks w ttl s).0 j ≡ some v
    unfolding acquire_script
    acquire_script_keeps ks ttl = elim (Bool-cases (mem_key j ks)) [
      | inl named ↦ rw (any_exists_of_held ks v s held named) held
      | inr other ↦ ground (arith, get-set_all_other ks w ttl s)
    ]

    module _ (foreign : v ≢ w) where
      -- An extend run of another lock keeps the key.
      pub extend_script_keeps :
          (ks : List String) (ttl : ℤ) → get (extend_script r ks w ttl s).0 j ≡ some v
      unfolding extend_script
      extend_script_keeps ks ttl = elim (Bool-cases (mem_key j ks)) [
        | inl named ↦ rw (any_differs_of_held ks v w s held foreign named) held
        | inr other ↦ ground (arith, get-set_all_other ks w ttl s)
      ]

  release_loop_keeps :
      (ks : List String) (v w : String) (n : ℕ) (s : State)
      → get s j ≡ some v
      → v ≢ w
      → get (release_loop r ks w n s).0 j ≡ some v
  unfolding release_loop
  release_loop_keeps [] v w n s h ne = h
  release_loop_keeps (k ∷ ks) v w n s h ne = elim (Bool-cases (reads_as (get s k) w)) [
    | inl own ↦
        rw (own, release_loop)
          (release_loop_keeps ks v w (n + 1) (del s k)
            (ground (arith, str_eq_iff k j, str_eq_iff v w, r.get-del s k j)) ne)
    | inr kept ↦ rw (kept, release_loop) (release_loop_keeps ks v w n s h ne)
  ]

  -- A release run of another lock keeps the key.
  pub release_script_keeps :
      (ks : List String) (v w : String) (s : State)
      → get s j ≡ some v
      → v ≢ w
      → get (release_script r ks w s).0 j ≡ some v
  unfolding release_script
  release_script_keeps ks v w s h ne = release_loop_keeps ks v w 0 s h ne
