-- ===== src/Redlock/Scripts/Laws.antt =====
-- What each script does to its own keys: the reply and every key afterwards, and the round trip
-- of acquire and release.
use nestplatform.Base.{
  distinct, mem_key, ap, ◌∙◌, ℕ, ◌+◌, ◌≤◌, ◌<◌, ◌≡◌, ◌↔◌, refl, String, Option, none, some, true,
  false, ◌&&◌, List, [], ◌∷◌, str_eq, str_eq_iff, if◌then◌else◌, arith, inl, inr, Bool-cases,
  length,
}
use nestplatform.Base.Int.{ℤ, pos, ◌≤ℤ◌}
use nestplatform.Redlock.Redis.{Redis}
use nestplatform.Redlock.Scripts.{
  reads_as, any_exists, any_differs, set_all, acquire_script, release_loop, release_script,
}
use nestplatform.Redlock.Scripts.Frame.{get-set_all}

abbrev pub reply_or : Option ℕ → ℕ
reply_or none = 0
reply_or (some n) = n

module _ (r : Redis) where
  open r use {State, get, exists, del, set_px}

  pub set_all_completes :
      (ks : List String) (v : String) (ttl : ℤ) (s : State)
      → pos 1 ≤ℤ ttl
      → (set_all r ks v ttl s).1 ≡ true
  unfolding set_all
  set_all_completes [] v ttl s h = refl
  set_all_completes (k ∷ ks) v ttl s h =
      let (t, done) = r.set_px_accepts s k v ttl h in
      rw (done, set_all) (set_all_completes ks v ttl t h)

  -- On free keys an acquire run replies with their number, and then they hold the lock's value and
  -- every other key is as before.
  pub acquire_script_free :
      (ks : List String) (v : String) (ttl : ℤ) (s : State)
      → pos 1 ≤ℤ ttl
      → any_exists r s ks ≡ false
      → ((acquire_script r ks v ttl s).1 ≡ some (length ks))
        × ((j : String)
            → get (acquire_script r ks v ttl s).0 j ≡ (if mem_key j ks then some v else get s j))
  unfolding acquire_script
  acquire_script_free ks v ttl s h free = (
    ground (arith, set_all_completes ks v ttl s h),
    λ j. ground (arith, set_all_completes ks v ttl s h, get-set_all r j ks v ttl s),
  )

  any_differs_of_own :
      (ks : List String) (v : String) (s : State)
      → ((j : String) → mem_key j ks ≡ true → get s j ≡ some v)
      → any_differs r s ks v ≡ false
  unfolding any_differs
  any_differs_of_own [] v s own = refl
  any_differs_of_own (k ∷ ks) v s own = ground (
    arith,
    str_eq_iff k k,
    str_eq_iff v v,
    own k,
    any_differs_of_own ks v s (λ j m. own j (ground arith)),
  )

  -- Deleting reaches the keys that are named and hold the value, and no other.
  get-release_loop :
      (j : String) (ks : List String) (v : String) (n : ℕ) (s : State)
      → get (release_loop r ks v n s).0 j
        ≡ (if mem_key j ks && reads_as (get s j) v then none else get s j)
  unfolding release_loop
  get-release_loop j [] v n s = refl
  get-release_loop j (k ∷ ks) v n s = elim (Bool-cases (reads_as (get s k) v)) [
    | inl own ↦
        rw (own, release_loop)
          (ground
            (arith, str_eq_iff k j, r.get-del s k j, get-release_loop j ks v (n + 1) (del s k)))
    | inr kept ↦
        rw (kept, release_loop) (ground (arith, str_eq_iff k j, get-release_loop j ks v n s))
  ]

  pub get-release_script :
      (j : String) (ks : List String) (v : String) (s : State)
      → get (release_script r ks v s).0 j
        ≡ (if mem_key j ks && reads_as (get s j) v then none else get s j)
  unfolding release_script
  get-release_script j ks v s = get-release_loop j ks v 0 s

  -- Each key counts once: deleting it takes the value away from a second mention of it.
  release_loop-distinct :
      (ks : List String) (v : String) (n : ℕ) (s : State)
      → ((j : String) → mem_key j ks ≡ true → get s j ≡ some v)
      → distinct ks ≡ true
      → (release_loop r ks v n s).1 ≡ some (n + length ks)
  unfolding release_loop
  release_loop-distinct [] v n s own d = ground arith
  release_loop-distinct (k ∷ ks) v n s own d =
      let here : reads_as (get s k) v ≡ true =
        ground (arith, own k, str_eq_iff k k, str_eq_iff v v) in
      rw (here, release_loop)
        (ground (
          arith,
          release_loop-distinct ks v (n + 1) (del s k)
              (λ j m. ground (arith, own j, r.get-del s k j, str_eq_iff k j)),
        ))

  release_loop_le :
      (ks : List String) (v : String) (n : ℕ) (s : State)
      → reply_or (release_loop r ks v n s).1 ≤ n + length ks
  unfolding release_loop
  release_loop_le [] v n s = ground arith
  release_loop_le (k ∷ ks) v n s = elim (Bool-cases (reads_as (get s k) v)) [
    | inl own ↦ rw (own, release_loop) (omega (arith, release_loop_le ks v (n + 1) (del s k)))
    | inr kept ↦ rw (kept, release_loop) (omega (arith, release_loop_le ks v n s))
  ]

  -- A named key that does not hold the value is missing in the count.
  pub release_loop_missing :
      (j : String) (ks : List String) (v : String) (n : ℕ) (s : State)
      → reads_as (get s j) v ≡ false
      → mem_key j ks ≡ true
      → reply_or (release_loop r ks v n s).1 < n + length ks
  unfolding release_loop
  release_loop_missing j [] v n s e m = absurd (ground arith)
  release_loop_missing j (k ∷ ks) v n s e m = elim (Bool-cases (str_eq k j)) [
    | inl same ↦
        let here : k ≡ j = (str_eq_iff k j).0 same in
        let gone : reads_as (get s k) v ≡ false = ap (λ x. reads_as (get s x) v) here ∙ e in
        rw (gone, release_loop) (omega (arith, release_loop_le ks v n s))
    | inr other ↦ elim (Bool-cases (reads_as (get s k) v)) [
      | inl own ↦
          let kept : get (del s k) j ≡ get s j = r.get-del s k j ∙ rw other refl in
          rw (own, release_loop)
            (omega (
              arith,
              release_loop_missing j ks v (n + 1) (del s k) (ap (λ x. reads_as x v) kept ∙ e)
                  (ground arith),
            ))
      | inr kept ↦
          rw (kept, release_loop) (omega (arith, release_loop_missing j ks v n s e (ground arith)))
    ]
  ]

  release_loop_repeated :
      (ks : List String) (v : String) (n : ℕ) (s : State)
      → ((j : String) → mem_key j ks ≡ true → get s j ≡ some v)
      → distinct ks ≡ false
      → reply_or (release_loop r ks v n s).1 < n + length ks
  unfolding release_loop
  release_loop_repeated [] v n s own d = absurd (ground arith)
  release_loop_repeated (k ∷ ks) v n s own d =
      let here : reads_as (get s k) v ≡ true =
        ground (arith, own k, str_eq_iff k k, str_eq_iff v v) in
      rw (here, release_loop)
        (elim (Bool-cases (mem_key k ks)) [
          | inl again ↦ omega (
            arith,
            release_loop_missing k ks v (n + 1) (del s k)
                (let gone : get (del s k) k ≡ none =
                    r.get-del s k k ∙ rw ((str_eq_iff k k).1 refl) refl in
                  ap (λ x. reads_as x v) gone)
                again,
          )
          | inr once ↦ omega (
            arith,
            release_loop_repeated ks v (n + 1) (del s k)
                (λ j m. ground (arith, own j, r.get-del s k j, str_eq_iff k j)) (ground arith),
          )
        ])

  -- A release run over keys that all hold the lock's value replies with the number of keys exactly
  -- when no key is named twice.
  pub release_script_reply :
      (ks : List String) (v : String) (s : State)
      → ((j : String) → mem_key j ks ≡ true → get s j ≡ some v)
      → ((release_script r ks v s).1 ≡ some (length ks)) ↔ (distinct ks ≡ true)
  unfolding release_script
  release_script_reply ks v s own = (
    (λ full. elim (Bool-cases (distinct ks)) [
      | inl d ↦ d
      | inr d ↦ absurd (ground (arith, release_loop_repeated ks v 0 s own d, full))
    ]),
    (λ d. ground (arith, release_loop-distinct ks v 0 s own d)),
  )

  none_of_free :
      (j : String) (ks : List String) (s : State)
      → any_exists r s ks ≡ false
      → mem_key j ks ≡ true
      → get s j ≡ none
  unfolding any_exists
  none_of_free j [] s free m = absurd (ground arith)
  none_of_free j (k ∷ ks) s free m =
      ground (arith, str_eq_iff k j, r.exists-get s k, none_of_free j ks s)

  -- Acquire on free keys and release with the same value give every key its first reading back.
  pub release-acquire :
      (ks : List String) (v : String) (ttl : ℤ) (s : State)
      → pos 1 ≤ℤ ttl
      → any_exists r s ks ≡ false
      → (j : String) → get (release_script r ks v (acquire_script r ks v ttl s).0).0 j ≡ get s j
  release-acquire ks v ttl s h free j =
      let s' = (acquire_script r ks v ttl s).0 in
      ground (
        arith,
        get-release_script j ks v s',
        (acquire_script_free ks v ttl s h free).1 j,
        none_of_free j ks s free,
        str_eq_iff v v,
      )
