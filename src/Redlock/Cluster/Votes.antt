-- ===== src/Redlock/Cluster/Votes.antt =====
-- What a vote in favour says about the node, and what an operation of another lock leaves of it.
use nestplatform.Base.{
  mem_key, ℕ, ◌<◌, ◌≡◌, ◌≢◌, refl, String, Option, none, some, Bool, true, false, List, [], ◌∷◌,
  length, arith,
}
use nestplatform.Base.Int.{ℤ}
use nestplatform.Redlock.Redis.{Redis}
use nestplatform.Redlock.Scripts.{acquire_script}
use nestplatform.Redlock.Scripts.Frame.{
  get-set_all, any_exists_of_held, acquire_script_keeps, extend_script_keeps, release_script_keeps,
}
use nestplatform.Redlock.Voting.{Error, no_script, ClientExecutionResult}
use nestplatform.Redlock.Voting.Quorum.{is_for}
use nestplatform.Redlock.Cluster.{
  Operation, acquiring, extending, releasing, Sent, answered, odd_reply, not_an_error, lost_before,
  lost_after, Link, Reply, non_number, thrown, thrown_other, run_script, answer, send_eval,
  send_evalsha, retry_eval, evaluate, vote_of, attempt_operation_on_client,
}

-- The operation is not an extension or a release by the lock `v` itself.
abbrev pub IsForeign : String → Operation → Type 0
IsForeign v (acquiring w ttl) = Unit
IsForeign v (extending w ttl) = v ≢ w
IsForeign v (releasing w) = v ≢ w

abbrev pub votes_for? : Option ClientExecutionResult → Bool
votes_for? none = false
votes_for? (some v) = is_for v

length_of_mem : (k : String) (ks : List String) → mem_key k ks ≡ true → 0 < length ks
length_of_mem k [] m = absurd (ground arith)
length_of_mem k (j ∷ ks) m = omega arith

module _ (r : Redis) where
  open r use {State, get}

  run_script_keeps :
      (op : Operation) (ks : List String) (k v : String) (s : State)
      → get s k ≡ some v
      → IsForeign v op
      → get (run_script r op ks s).0 k ≡ some v
  run_script_keeps (acquiring w ttl) ks k v s h f = acquire_script_keeps r k v w s h ks ttl
  run_script_keeps (extending w ttl) ks k v s h f = extend_script_keeps r k v w s h f ks ttl
  run_script_keeps (releasing w) ks k v s h f = release_script_keeps r k ks v w s h f

-- A property of what one client's exchange leaves, from the script's run and from the failures.
module _ (r : Redis) (op : Operation) (ks : List String) (P : r.State → Type 0)
    (Q : r.State × Reply → Type 0) (run_P : (s : r.State) → P s → P (run_script r op ks s).0)
    (run_Q : (s : r.State) → P s → Q (answer r (run_script r op ks s)))
    (fail_Q : (s : r.State)
      → P s
      → ((e : Error) → Q (s, thrown e)) × Q (s, non_number) × Q (s, thrown_other)) where
  send_eval_Q : (sent : Sent) (s : r.State) → P s → Q (send_eval r sent op ks s)
  send_eval_Q answered s p = run_Q s p
  send_eval_Q (lost_before e) s p = (fail_Q s p).0 e
  send_eval_Q (lost_after e) s p = (fail_Q (run_script r op ks s).0 (run_P s p)).0 e
  send_eval_Q odd_reply s p = (fail_Q (run_script r op ks s).0 (run_P s p)).1
  send_eval_Q not_an_error s p = (fail_Q s p).2

  answer_P : (a : r.State × Option ℕ) → P a.0 → P (answer r a).0
  answer_P (s, none) p = p
  answer_P (s, some n) p = p

  send_eval_P : (sent : Sent) (s : r.State) → P s → P (send_eval r sent op ks s).0
  send_eval_P answered s p = answer_P (run_script r op ks s) (run_P s p)
  send_eval_P (lost_before e) s p = p
  send_eval_P (lost_after e) s p = run_P s p
  send_eval_P odd_reply s p = run_P s p
  send_eval_P not_an_error s p = p

  send_evalsha_Q :
      (cached : Bool) (sent : Sent) (s : r.State)
      → P s
      → P (send_evalsha r cached sent op ks s).0 × Q (send_evalsha r cached sent op ks s)
  send_evalsha_Q true sent s p = (send_eval_P sent s p, send_eval_Q sent s p)
  send_evalsha_Q false answered s p = (p, (fail_Q s p).0 no_script)
  send_evalsha_Q false (lost_before e) s p = (p, (fail_Q s p).0 e)
  send_evalsha_Q false (lost_after e) s p = (p, (fail_Q s p).0 e)
  send_evalsha_Q false odd_reply s p = (p, (fail_Q s p).1)
  send_evalsha_Q false not_an_error s p = (p, (fail_Q s p).2)

  retry_eval_Q :
      (sent : Sent) (a : r.State × Reply)
      → P a.0 × Q a
      → P (retry_eval r sent op ks a).0 × Q (retry_eval r sent op ks a)
  retry_eval_Q sent (s, thrown no_script) h = (send_eval_P sent s h.0, send_eval_Q sent s h.0)
  retry_eval_Q sent (s, reply) h = h

  pub evaluate_Q :
      (l : Link) (s : r.State) → P s → P (evaluate r l op ks s).0 × Q (evaluate r l op ks s)
  evaluate_Q l s p =
      retry_eval_Q l.eval (send_evalsha r l.script_cached l.evalsha op ks s)
        (send_evalsha_Q l.script_cached l.evalsha s p)

module _ (r : Redis) (k v : String) (ks : List String) where
  open r use {State, get}

  -- A client keeps the key of a lock through an operation of another.
  pub client_keeps :
      (c : ℕ) (l : Link) (op : Operation) (s : State)
      → IsForeign v op
      → get s k ≡ some v
      → get (attempt_operation_on_client r c l op ks s).0 k ≡ some v
  unfolding attempt_operation_on_client
  client_keeps c l op s f h =
      (evaluate_Q r op ks (λ t. get t k ≡ some v) (λ a. Unit {0})
        (λ t p. run_script_keeps r op ks k v t p f) (λ t p. tt) (λ t p. ((λ e. tt), tt, tt)) l s
        h).0

  module _ (named : mem_key k ks ≡ true) where
    acquire_refused :
        (w : String) (ttl : ℤ) (c : ℕ) (s : State)
        → get s k ≡ some v
        → votes_for? (vote_of c ks (answer r (run_script r (acquiring w ttl) ks s)).1) ≡ false
    unfolding acquire_script
    acquire_refused w ttl c s h =
        ground (arith, any_exists_of_held r k ks v s h named, length_of_mem k ks named)

    -- A client whose node holds the key does not vote for an acquisition of it.
    pub client_refuses :
        (c : ℕ) (l : Link) (w : String) (ttl : ℤ) (s : State)
        → get s k ≡ some v
        → votes_for? (attempt_operation_on_client r c l (acquiring w ttl) ks s).1 ≡ false
    unfolding attempt_operation_on_client
    client_refuses c l w ttl s h =
        (evaluate_Q r (acquiring w ttl) ks (λ t. get t k ≡ some v)
          (λ a. votes_for? (vote_of c ks a.1) ≡ false)
          (λ t p. run_script_keeps r (acquiring w ttl) ks k v t p tt)
          (λ t p. acquire_refused w ttl c t p) (λ t p. ((λ e. refl), refl, refl)) l s h).1

    acquire_granted :
        (ttl : ℤ) (c : ℕ) (s : State)
        → votes_for? (vote_of c ks (answer r (run_script r (acquiring v ttl) ks s)).1) ≡ true
        → get (answer r (run_script r (acquiring v ttl) ks s)).0 k ≡ some v
    unfolding acquire_script
    acquire_granted ttl c s e = ground (arith, get-set_all r k ks v ttl s, length_of_mem k ks named)

    -- A client that votes for an acquisition has every key of it with the lock's value.
    pub client_grants :
        (c : ℕ) (l : Link) (ttl : ℤ) (s : State)
        → votes_for? (attempt_operation_on_client r c l (acquiring v ttl) ks s).1 ≡ true
        → get (attempt_operation_on_client r c l (acquiring v ttl) ks s).0 k ≡ some v
    unfolding attempt_operation_on_client
    client_grants c l ttl s =
        (evaluate_Q r (acquiring v ttl) ks (λ t. Unit {0})
          (λ a. votes_for? (vote_of c ks a.1) ≡ true → get a.0 k ≡ some v) (λ t p. tt)
          (λ t p. acquire_granted ttl c t)
          (λ t p. (
            (λ e x. absurd (ground arith)),
            (λ x. absurd (ground arith)),
            (λ x. absurd (ground arith)),
          ))
          l s tt).1
