-- ===== src/Redlock/Cluster.antt =====
-- packages/distribution-redlock/src/redlock.service.ts, `_attemptOperationOnClient`, and the call of
-- it for every client. What the network does with a command is an argument (`Link`).
pub mod Votes
pub mod Exclusion
pub mod Refinement
use nestplatform.Base.{
  ℕ, suc, ◌+◌, String, Option, none, some, Bool, true, false, List, [], ◌∷◌, ◌==◌, if◌then◌else◌,
  length,
}
use nestplatform.Base.Int.{ℤ}
use nestplatform.Redlock.Redis.{Redis}
use nestplatform.Redlock.Scripts.{acquire_script, extend_script, release_script}
use nestplatform.Redlock.Voting.{
  Error, no_script, script_error, unexpected_reply, resource_locked, ClientExecutionResult,
  vote_for, vote_against,
}

-- The script that an operation runs, with its value and TTL arguments.
pub data Operation : Type 0 where
  acquiring : String → ℤ → Operation
  extending : String → ℤ → Operation
  releasing : String → Operation

-- What becomes of one command: it is answered; an error comes instead before or after the node ran
-- it; the reply is no number; or something that is no `Error` is thrown.
pub data Sent : Type 0 where
  answered odd_reply not_an_error : Sent
  lost_before lost_after : Error → Sent

pub record Link : Type 0 where
  pub script_cached : Bool
  pub evalsha : Sent
  pub eval : Sent

pub data Reply : Type 0 where
  number : ℕ → Reply
  non_number thrown_other : Reply
  thrown : Error → Reply

-- `none` is a rejected promise, which no handler of the attempt counts.
abbrev pub vote_of : ℕ → List String → Reply → Option ClientExecutionResult
vote_of c ks (number n) =
    if n == length ks then some (vote_for c n) else some (vote_against c resource_locked)
vote_of c ks non_number = some (vote_against c unexpected_reply)
vote_of c ks (thrown e) = some (vote_against c e)
vote_of c ks thrown_other = none

abbrev pub keep_vote :
    Option ClientExecutionResult → List ClientExecutionResult → List ClientExecutionResult
keep_vote none vs = vs
keep_vote (some v) vs = v ∷ vs

module _ (r : Redis) where
  open r use {State}

  abbrev pub run_script : Operation → List String → State → State × Option ℕ
  run_script (acquiring v ttl) ks s = acquire_script r ks v ttl s
  run_script (extending v ttl) ks s = extend_script r ks v ttl s
  run_script (releasing v) ks s = release_script r ks v s

  abbrev pub answer : State × Option ℕ → State × Reply
  answer (s, some n) = (s, number n)
  answer (s, none) = (s, thrown script_error)

  abbrev pub send_eval : Sent → Operation → List String → State → State × Reply
  send_eval answered op ks s = answer (run_script op ks s)
  send_eval (lost_before e) op ks s = (s, thrown e)
  send_eval (lost_after e) op ks s = ((run_script op ks s).0, thrown e)
  send_eval odd_reply op ks s = ((run_script op ks s).0, non_number)
  send_eval not_an_error op ks s = (s, thrown_other)

  -- A node that does not have the script answers NOSCRIPT and runs nothing.
  abbrev pub send_evalsha : Bool → Sent → Operation → List String → State → State × Reply
  send_evalsha true sent op ks s = send_eval sent op ks s
  send_evalsha false answered op ks s = (s, thrown no_script)
  send_evalsha false (lost_before e) op ks s = (s, thrown e)
  send_evalsha false (lost_after e) op ks s = (s, thrown e)
  send_evalsha false odd_reply op ks s = (s, non_number)
  send_evalsha false not_an_error op ks s = (s, thrown_other)

  -- The inner `catch`: only NOSCRIPT is answered by sending the script's text.
  abbrev pub retry_eval : Sent → Operation → List String → State × Reply → State × Reply
  retry_eval sent op ks (s, thrown no_script) = send_eval sent op ks s
  retry_eval sent op ks (s, reply) = (s, reply)

  abbrev pub evaluate : Link → Operation → List String → State → State × Reply
  evaluate l op ks s = retry_eval l.eval op ks (send_evalsha l.script_cached l.evalsha op ks s)

  unfoldable pub attempt_operation_on_client :
      ℕ → Link → Operation → List String → State → State × Option ClientExecutionResult
  attempt_operation_on_client c l op ks s =
      let (s', reply) = evaluate l op ks s in (s', vote_of c ks reply)

  -- All clients from number `c` on: the nodes afterwards, and the results in the clients' order.
  unfoldable pub attempt_on_clients :
      (ℕ → Link)
      → Operation
      → List String
      → ℕ
      → List State
      → List State × List ClientExecutionResult
  attempt_on_clients links op ks c [] = ([], [])
  attempt_on_clients links op ks c (s ∷ ss) =
      let (s', vote) = attempt_operation_on_client c (links c) op ks s in
      let (ss', votes) = attempt_on_clients links op ks (suc c) ss in
      (s' ∷ ss', keep_vote vote votes)
