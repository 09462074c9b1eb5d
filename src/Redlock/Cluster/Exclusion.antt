-- ===== src/Redlock/Cluster/Exclusion.antt =====
-- Mutual exclusion of the Redlock algorithm while no key expires: a lock that a quorum granted
-- keeps a quorum of its nodes, and no other lock is granted a quorum on a key of it.
use nestplatform.Base.{
  mem_key, ℕ, suc, ◌+◌, ◌≤◌, ◌<◌, ◌≡◌, ◌≢◌, refl, String, Option, none, some, Bool, true, List, [],
  ◌∷◌, if◌then◌else◌, length, arith, inl, inr, Bool-cases, Option-cases, str_eq_iff, count_p,
}
use nestplatform.Base.Int.{ℤ}
use nestplatform.Redlock.Redis.{Redis}
use nestplatform.Redlock.Scripts.{reads_as}
use nestplatform.Redlock.Voting.{ClientExecutionResult, for, attempt_operation}
use nestplatform.Redlock.Voting.Quorum.{count_for}
use nestplatform.Redlock.Voting.Decision.{
  Arrivals, Arrivals-count_for, resolved_for_quorum, quorum_majority,
}
use nestplatform.Redlock.Cluster.{
  Operation, acquiring, Link, attempt_operation_on_client, attempt_on_clients, keep_vote,
}
use nestplatform.Redlock.Cluster.Votes.{
  IsForeign, votes_for?, client_keeps, client_refuses, client_grants,
}

count_for-keep_vote :
    (o : Option ClientExecutionResult) (vs : List ClientExecutionResult)
    → count_for (keep_vote o vs) ≡ (if votes_for? o then suc (count_for vs) else count_for vs)
count_for-keep_vote none vs = refl
count_for-keep_vote (some v) vs = refl

module _ (r : Redis) (k v : String) where
  open r use {State, get}

  -- The nodes on which the key holds the value.
  abbrev pub holds : State → Bool
  holds s = reads_as (get s k) v

  abbrev pub held : List State → ℕ
  held = count_p holds

  get_of_holds : (s : State) → holds s ≡ true → get s k ≡ some v
  get_of_holds s h = elim (Option-cases (get s k)) [
    | inl none_there ↦ absurd (ground arith)
    | inr (w, there) ↦ ground (arith, str_eq_iff w v)
  ]

  holds_of_get : (s : State) → get s k ≡ some v → holds s ≡ true
  holds_of_get s h = ground (arith, str_eq_iff v v)

  module _ (links : ℕ → Link) (ks : List String) where
    held_keeps :
        (op : Operation) (c : ℕ) (ss : List State)
        → IsForeign v op
        → held ss ≤ held (attempt_on_clients r links op ks c ss).0
    unfolding attempt_on_clients
    held_keeps op c [] f = omega arith
    held_keeps op c (s ∷ ss) f = elim (Bool-cases (holds s)) [
      | inl here ↦ ground (
        arith,
        holds_of_get (attempt_operation_on_client r c (links c) op ks s).0
            (client_keeps r k v ks c (links c) op s f (get_of_holds s here)),
        held_keeps op (suc c) ss f,
      )
      | inr not_here ↦ ground (arith, held_keeps op (suc c) ss f)
    ]

    module _ (named : mem_key k ks ≡ true) where
      refusals :
          (w : String) (ttl : ℤ) (c : ℕ) (ss : List State)
          → count_for (attempt_on_clients r links (acquiring w ttl) ks c ss).1 + held ss ≤ length ss
      unfolding attempt_on_clients
      refusals w ttl c [] = omega arith
      refusals w ttl c (s ∷ ss) =
          let (s', vote) = attempt_operation_on_client r c (links c) (acquiring w ttl) ks s in
          let votes = (attempt_on_clients r links (acquiring w ttl) ks (suc c) ss).1 in
          elim (Bool-cases (holds s)) [
            | inl here ↦
                let refused =
                  client_refuses r k v ks named c (links c) w ttl s (get_of_holds s here) in
                ground (arith, count_for-keep_vote vote votes, refused, refusals w ttl (suc c) ss)
            | inr not_here ↦
                ground (arith, count_for-keep_vote vote votes, refusals w ttl (suc c) ss)
          ]

      grants :
          (ttl : ℤ) (c : ℕ) (ss : List State)
          → count_for (attempt_on_clients r links (acquiring v ttl) ks c ss).1
            ≤ held (attempt_on_clients r links (acquiring v ttl) ks c ss).0
      unfolding attempt_on_clients
      grants ttl c [] = omega arith
      grants ttl c (s ∷ ss) =
          let a = attempt_operation_on_client r c (links c) (acquiring v ttl) ks s in
          let votes = (attempt_on_clients r links (acquiring v ttl) ks (suc c) ss).1 in
          elim (Bool-cases (votes_for? a.1)) [
            | inl granted ↦
                let mine =
                  holds_of_get a.0 (client_grants r k v ks named c (links c) ttl s granted) in
                ground (arith, count_for-keep_vote a.1 votes, mine, grants ttl (suc c) ss)
            | inr refused ↦ ground (arith, count_for-keep_vote a.1 votes, grants ttl (suc c) ss)
          ]

  -- Operations of other locks, one after another, on any keys and over any links. No key expires.
  pub data Others : List State → List State → Type 0 where
    idle : (ss : List State) → Others ss ss
    operates :
        (links : ℕ → Link) (op : Operation) (ks : List String) (ss ts : List State)
        → IsForeign v op
        → Others (attempt_on_clients r links op ks 0 ss).0 ts
        → Others ss ts

  length-attempt_on_clients :
      (links : ℕ → Link) (op : Operation) (ks : List String) (c : ℕ) (ss : List State)
      → length (attempt_on_clients r links op ks c ss).0 ≡ length ss
  unfolding attempt_on_clients
  length-attempt_on_clients links op ks c [] = refl
  length-attempt_on_clients links op ks c (s ∷ ss) =
      omega (arith, length-attempt_on_clients links op ks (suc c) ss)

  Others-length : {ss ts : List State} → Others ss ts → length ts ≡ length ss
  Others-length (idle ss) = refl
  Others-length (operates links op ks ss ts f rest) =
      omega (arith, Others-length rest, length-attempt_on_clients links op ks 0 ss)

  Others-held : {ss ts : List State} → Others ss ts → held ss ≤ held ts
  Others-held (idle ss) = omega arith
  Others-held (operates links op ks ss ts f rest) =
      omega (arith, held_keeps links ks op 0 ss f, Others-held rest)

  -- Once an acquisition of a key has been resolved in favour, and whatever other locks then do on
  -- any nodes over any links, no later acquisition of that key is resolved in favour as long as the
  -- key expires on no node and the lock is not released; each attempt may be resolved by the results
  -- that have arrived so far, in any order.
  pub acquire_exclusive :
      (links links' : ℕ → Link) (ks ks' : List String) (w : String) (ttl ttl' : ℤ)
      (ss ts : List State) (arrived arrived' : List ClientExecutionResult)
      → 0 < length ss
      → mem_key k ks ≡ true
      → mem_key k ks' ≡ true
      → Arrivals arrived (attempt_on_clients r links (acquiring v ttl) ks 0 ss).1
      → (attempt_operation (length ss) arrived).resolved ≡ some for
      → Others (attempt_on_clients r links (acquiring v ttl) ks 0 ss).0 ts
      → Arrivals arrived' (attempt_on_clients r links' (acquiring w ttl') ks' 0 ts).1
      → (attempt_operation (length ss) arrived').resolved ≢ some for
  acquire_exclusive links links' ks ks' w ttl ttl' ss ts arrived arrived' some_nodes named named' a
        won others b e =
      omega (
        arith,
        resolved_for_quorum (length ss) arrived some_nodes a.once won,
        Arrivals-count_for a,
        grants links ks named ttl 0 ss,
        Others-held others,
        Others-length others,
        length-attempt_on_clients links (acquiring v ttl) ks 0 ss,
        refusals links' ks' named' w ttl' 0 ts,
        Arrivals-count_for b,
        resolved_for_quorum (length ss) arrived' some_nodes b.once e,
        quorum_majority (length ss),
      )
