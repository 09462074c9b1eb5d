-- ===== src/Redlock/Cluster/Refinement.antt =====
-- What the three scripts promise, as operations on a table of locks, and that a node implements it.
use nestplatform.Base.{
  distinct, mem_key, ℕ, ◌<◌, ◌≡◌, ◌↔◌, refl, sym, ap, ◌∙◌, String, Option, none, some, Bool, true,
  false, not, ◌&&◌, ◌||◌, List, [], ◌∷◌, str_eq, str_eq_iff, if◌then◌else◌, arith, inl, inr,
  Bool-cases, length,
}
use nestplatform.Base.Int.{ℤ, pos, ◌≤ℤ◌}
use nestplatform.Redlock.Redis.{Redis, is_some}
use nestplatform.Redlock.Scripts.{
  reads_as, any_exists, any_differs, acquire_script, extend_script, release_script,
}
use nestplatform.Redlock.Scripts.Frame.{get-set_all}
use nestplatform.Redlock.Scripts.Laws.{
  set_all_completes, acquire_script_free, get-release_script, release_loop_missing,
  release_script_reply,
}
use nestplatform.Redlock.Cluster.{Operation, acquiring, extending, releasing, run_script}

-- Who holds each key.
abbrev pub Table : Type 0
Table = String → Option String

abbrev pub any_taken : Table → List String → Bool
any_taken T [] = false
any_taken T (k ∷ ks) = is_some (T k) || any_taken T ks

abbrev pub all_owned : Table → List String → String → Bool
all_owned T [] v = true
all_owned T (k ∷ ks) v = reads_as (T k) v && all_owned T ks v

-- Whether the operation is granted on the table.
abbrev pub granted : Operation → List String → Table → Bool
granted (acquiring v ttl) ks T = not (any_taken T ks)
granted (extending v ttl) ks T = all_owned T ks v
granted (releasing v) ks T = all_owned T ks v && distinct ks

-- The table afterwards. A release takes away what it owns, granted or not.
abbrev pub applied : Operation → List String → Table → Table
applied (acquiring v ttl) ks T j = if not (any_taken T ks) && mem_key j ks then some v else T j
applied (extending v ttl) ks T j = T j
applied (releasing v) ks T j = if mem_key j ks && reads_as (T j) v then none else T j

-- A script's TTL is at least one millisecond.
abbrev pub HasTtl : Operation → Type 0
HasTtl (acquiring v ttl) = pos 1 ≤ℤ ttl
HasTtl (extending v ttl) = pos 1 ≤ℤ ttl
HasTtl (releasing v) = Unit

some_of_reads_as : (o : Option String) (v : String) → reads_as o v ≡ true → o ≡ some v
some_of_reads_as none v h = absurd (ground arith)
some_of_reads_as (some w) v h = ap some ((str_eq_iff w v).0 h)

own_of_all_owned :
    (T : Table) (ks : List String) (v j : String)
    → all_owned T ks v ≡ true
    → mem_key j ks ≡ true
    → T j ≡ some v
own_of_all_owned T [] v j own m = absurd (ground arith)
own_of_all_owned T (k ∷ ks) v j own m = elim (Bool-cases (str_eq k j)) [
  | inl same ↦ ap T (sym ((str_eq_iff k j).0 same)) ∙ some_of_reads_as (T k) v (ground arith)
  | inr other ↦ own_of_all_owned T ks v j (ground arith) (ground arith)
]

missing_of_all_owned :
    (T : Table) (ks : List String) (v : String)
    → all_owned T ks v ≡ false
    → (j : String) × (mem_key j ks ≡ true) × (reads_as (T j) v ≡ false)
missing_of_all_owned T [] v h = absurd (ground arith)
missing_of_all_owned T (k ∷ ks) v h = elim (Bool-cases (reads_as (T k) v)) [
  | inl own ↦ let (j, m, e) = missing_of_all_owned T ks v (ground arith) in (j, ground arith, e)
  | inr gone ↦ (k, ground (arith, str_eq_iff k k), gone)
]

module _ (r : Redis) where
  open r use {State, get}

  -- A node stands for a table.
  abbrev pub Represents : State → Table → Type 0
  Represents s T = (j : String) → get s j ≡ T j

  any_exists-any_taken :
      (s : State) (T : Table) (ks : List String)
      → Represents s T
      → any_exists r s ks ≡ any_taken T ks
  unfolding any_exists
  any_exists-any_taken s T [] rep = refl
  any_exists-any_taken s T (k ∷ ks) rep =
      let first : r.exists s k ≡ is_some (T k) = r.exists-get s k ∙ ap is_some (rep k) in
      rw (first, any_exists-any_taken s T ks rep) refl

  any_differs-all_owned :
      (s : State) (T : Table) (ks : List String) (v : String)
      → Represents s T
      → any_differs r s ks v ≡ not (all_owned T ks v)
  unfolding any_differs
  any_differs-all_owned s T [] v rep = refl
  any_differs-all_owned s T (k ∷ ks) v rep =
      let first : reads_as (get s k) v ≡ reads_as (T k) v = ap (λ o. reads_as o v) (rep k) in
      ground (arith, any_differs-all_owned s T ks v rep)

  -- The reply of a script counts as a vote for it.
  abbrev pub Full : List String → Option ℕ → Type 0
  Full ks reply = reply ≡ some (length ks)

  abbrev pub Refines : Operation → List String → State → Table → Type 0
  Refines op ks s T =
      (Full ks (run_script r op ks s).1 ↔ (granted op ks T ≡ true))
      × Represents (run_script r op ks s).0 (applied op ks T)

  acquire-Refines :
      (v : String) (ttl : ℤ) (ks : List String) (s : State) (T : Table)
      → 0 < length ks
      → pos 1 ≤ℤ ttl
      → Represents s T
      → Refines (acquiring v ttl) ks s T
  unfolding acquire_script
  acquire-Refines v ttl ks s T some_keys positive rep = elim (Bool-cases (any_exists r s ks)) [
    | inl taken ↦
        let full : any_taken T ks ≡ true = sym (any_exists-any_taken s T ks rep) ∙ taken in
        rw (taken, full) (((λ f. ground arith), (λ g. ground arith)), rep)
    | inr free ↦
        let empty : any_taken T ks ≡ false = sym (any_exists-any_taken s T ks rep) ∙ free in
        let (reply, after) = acquire_script_free r ks v ttl s positive free in
        rw empty (((λ f. refl), (λ g. reply)), λ j. after j ∙ rw (rep j) refl)
  ]

  extend-Refines :
      (v : String) (ttl : ℤ) (ks : List String) (s : State) (T : Table)
      → 0 < length ks
      → pos 1 ≤ℤ ttl
      → Represents s T
      → Refines (extending v ttl) ks s T
  unfolding extend_script
  extend-Refines v ttl ks s T some_keys positive rep =
      let same = any_differs-all_owned s T ks v rep in
      elim (Bool-cases (all_owned T ks v)) [
        | inl own ↦
            let equal : any_differs r s ks v ≡ false = ground arith in
            let reply = set_all_completes r ks v ttl s positive in
            rw (equal, own)
              ((
                ((λ f. refl), (λ g. ground (arith, reply))),
                λ j.
                    ground
                      (arith, get-set_all r j ks v ttl s, own_of_all_owned T ks v j own, rep j),
              ))
        | inr lost ↦
            let differs : any_differs r s ks v ≡ true = ground arith in
            rw (differs, lost) (((λ f. ground arith), (λ g. ground arith)), rep)
      ]

  release_granted :
      (v : String) (ks : List String) (s : State) (T : Table)
      → Represents s T
      → Full ks (release_script r ks v s).1 ↔ (granted (releasing v) ks T ≡ true)
  unfolding release_script
  release_granted v ks s T rep = elim (Bool-cases (all_owned T ks v)) [
    | inl own ↦
        let (to, from) =
          release_script_reply r ks v s (λ j m. rep j ∙ own_of_all_owned T ks v j own m) in
        rw own (to, from)
    | inr lost ↦
        let (j, m, e) = missing_of_all_owned T ks v lost in
        let short = release_loop_missing r j ks v 0 s (ap (λ o. reads_as o v) (rep j) ∙ e) m in
        rw lost ((λ f. ground (arith, short, f)), (λ g. ground arith))
  ]

  release-Refines :
      (v : String) (ks : List String) (s : State) (T : Table)
      → Represents s T
      → Refines (releasing v) ks s T
  release-Refines v ks s T rep =
      (release_granted v ks s T rep, λ j. get-release_script r j ks v s ∙ rw (rep j) refl)

  -- On a node that stands for a table, each script replies with the number of its keys exactly when
  -- the operation is granted on the table, and leaves a node that stands for the table afterwards;
  -- it names a key and asks for a TTL of at least a millisecond.
  pub run_script-Refines :
      (op : Operation) (ks : List String) (s : State) (T : Table)
      → 0 < length ks
      → HasTtl op
      → Represents s T
      → Refines op ks s T
  run_script-Refines (acquiring v ttl) ks s T some_keys positive rep =
      acquire-Refines v ttl ks s T some_keys positive rep
  run_script-Refines (extending v ttl) ks s T some_keys positive rep =
      extend-Refines v ttl ks s T some_keys positive rep
  run_script-Refines (releasing v) ks s T some_keys positive rep = release-Refines v ks s T rep
