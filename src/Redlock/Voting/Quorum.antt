-- ===== src/Redlock/Voting/Quorum.antt =====
-- When an attempt is decided: a majority of the votes, in whatever order the results arrive.
use nestplatform.Base.{
  ℕ, ◌+◌, ◌≤◌, ◌<◌, ◌≡◌, ◌≢◌, ◌↔◌, ◌⊎◌, refl, Option, none, some, Bool, true, false, not, ◌||◌,
  List, [], ◌∷◌, ◌++◌, ◌==◌, if◌then◌else◌, arith, length, length-append, contains, map, count_p,
  All, leb, inl, inr, Bool-cases,
}
use nestplatform.Redlock.Voting.{
  Error, ExecutionStats, ClientExecutionResult, vote_for, vote_against, client, Round, Verdict, for,
  against, map_set, record_vote, resolve_for, resolve_against, resolve_stats, on_result_resolve,
  start_round, settle_votes,
}

abbrev pub is_for : ClientExecutionResult → Bool
is_for (vote_for c value) = true
is_for (vote_against c e) = false

-- The votes in favour, and those against, in a list of results.
abbrev pub count_for : List ClientExecutionResult → ℕ
count_for = count_p is_for

abbrev pub count_against : List ClientExecutionResult → ℕ
count_against = count_p (λ v. not (is_for v))

-- Every client answers once.
abbrev pub OncePerClient : List ClientExecutionResult → Type 0
OncePerClient [] = Unit
OncePerClient (v ∷ vs) = All (λ w. (client v == client w) ≡ false) vs × OncePerClient vs

abbrev pub voters_against : List (ℕ × Error) → List ℕ
voters_against = map (λ p. p.0)

abbrev pub IsFresh : ExecutionStats → ClientExecutionResult → Type 0
IsFresh s v =
    (contains (client v) s.votes_for ≡ false)
    × (contains (client v) (voters_against s.votes_against) ≡ false)

contains-append : (d c : ℕ) (cs : List ℕ) → contains d (cs ++ c ∷ []) ≡ (contains d cs || c == d)
contains-append d c [] = ground arith
contains-append d c (x ∷ cs) = ground (arith, contains-append d c cs)

length-map_set :
    (c : ℕ) (e : Error) (m : List (ℕ × Error))
    → contains c (voters_against m) ≡ false
    → length (map_set c e m) ≡ length m + 1
length-map_set c e [] h = omega arith
length-map_set c e ((d, e') ∷ m) h = ground (arith, length-map_set c e m)

contains-map_set :
    (d c : ℕ) (e : Error) (m : List (ℕ × Error))
    → contains d (voters_against (map_set c e m)) ≡ (c == d || contains d (voters_against m))
contains-map_set d c e [] = ground arith
contains-map_set d c e ((b, e') ∷ m) = ground (arith, contains-map_set d c e m)

-- One vote of a new client adds one to its side.
record Tally (s u : ExecutionStats) (v : ClientExecutionResult) : Type 0 where
  fors : length u.votes_for ≡ length s.votes_for + (if is_for v then 1 else 0)
  againsts : length u.votes_against ≡ length s.votes_against + (if is_for v then 0 else 1)
  quorum_kept : u.quorum_size ≡ s.quorum_size
  members_kept : u.membership_size ≡ s.membership_size

record_vote-Tally :
    (s : ExecutionStats) (v : ClientExecutionResult) → IsFresh s v → Tally s (record_vote v s) v
unfolding record_vote
record_vote-Tally s (vote_for c value) h = ground (arith, length-append s.votes_for (c ∷ []))
record_vote-Tally s (vote_against c e) h = ground (arith, length-map_set c e s.votes_against)

record_vote-IsFresh :
    (s : ExecutionStats) (v w : ClientExecutionResult)
    → IsFresh s w
    → (client v == client w) ≡ false
    → IsFresh (record_vote v s) w
unfolding record_vote
record_vote-IsFresh s (vote_for c value) w h ne =
    ground (arith, contains-append (client w) c s.votes_for)
record_vote-IsFresh s (vote_against c e) w h ne =
    ground (arith, contains-map_set (client w) c e s.votes_against)

-- What has been resolved is what the votes so far decide.
pub record Decided (s : ExecutionStats) (o : Option Verdict) (d : Bool) : Type 0 where
  pub pending :
      o ≡ none → (length s.votes_for < s.quorum_size) × (length s.votes_against < s.quorum_size)
  pub won : o ≡ some for → s.quorum_size ≤ length s.votes_for
  pub lost : (e : Error) → o ≡ some (against e) → s.quorum_size ≤ length s.votes_against
  pub complete : (d ≡ true) ↔ (s.membership_size ≤ length s.votes_for + length s.votes_against)

-- What the three tests at the end of the handler do, for any statistics.
module _ (u : Round) where
  abbrev decide : Round
  unfolding resolve_for resolve_against resolve_stats
  decide = resolve_stats (resolve_against (resolve_for u))

  abbrev fs : ℕ
  fs = length u.stats.votes_for

  abbrev as' : ℕ
  as' = length u.stats.votes_against

  decide_pending :
      decide.resolved ≡ none
      → (u.resolved ≡ none) × (fs ≢ u.stats.quorum_size) × (as' ≢ u.stats.quorum_size)
  unfolding resolve_for resolve_against resolve_stats
  decide_pending e = ground arith

  decide_won : decide.resolved ≡ some for → (u.resolved ≡ some for) ⊎ (fs ≡ u.stats.quorum_size)
  unfolding resolve_for resolve_against resolve_stats
  decide_won e = ground arith

  decide_lost :
      (e : Error)
      → decide.resolved ≡ some (against e)
      → (u.resolved ≡ some (against e)) ⊎ (as' ≡ u.stats.quorum_size)
  unfolding resolve_for resolve_against resolve_stats
  decide_lost e h = ground arith

  decide_complete : (decide.done ≡ true) ↔ ((u.done ≡ true) ⊎ (fs + as' ≡ u.stats.membership_size))
  unfolding resolve_for resolve_against resolve_stats
  decide_complete = (λ e. ground arith, λ e. ground arith)

  decide_stats : decide.stats ≡ u.stats
  unfolding resolve_for resolve_against resolve_stats
  decide_stats = ground arith

on_result_resolve-stats :
    (t : Round) (v : ClientExecutionResult) → (on_result_resolve t v).stats ≡ record_vote v t.stats
unfolding on_result_resolve
on_result_resolve-stats t v = decide_stats (record t { stats = record_vote v t.stats })

on_result_resolve-Decided :
    (t : Round) (v : ClientExecutionResult)
    → Decided t.stats t.resolved t.done
    → IsFresh t.stats v
    → Decided
        (on_result_resolve t v).stats
        (on_result_resolve t v).resolved
        (on_result_resolve t v).done
unfolding on_result_resolve
on_result_resolve-Decided t v h f =
    let u : Round = record t { stats = record_vote v t.stats } in
    let k = record_vote-Tally t.stats v f in
    rw (decide_stats u) (record {
      pending = λ e. let p = decide_pending u e in let q = h.pending p.0 in ground arith;
      won = λ e. elim (decide_won u e) [
        | inl before ↦ let q = h.won before in ground arith
        | inr now ↦ omega arith
      ];
      lost = λ e o. elim (decide_lost u e o) [
        | inl before ↦ let q = h.lost e before in ground arith
        | inr now ↦ omega arith
      ];
      complete = (
        (λ e. elim ((decide_complete u).0 e) [
          | inl before ↦
              let q = h.complete.0 before in omega (arith, k.fors, k.againsts, k.members_kept)
          | inr now ↦ omega arith
        ]),
        (λ e.
            (decide_complete u).1
              (elim (Bool-cases (
                leb t.stats.membership_size
                  (length t.stats.votes_for + length t.stats.votes_against))) [
                    | inl before ↦ inl (h.complete.1 (ground arith))
                    | inr now ↦ inr (ground (arith, k.fors, k.againsts, k.members_kept))
                  ])),
      );
    })

-- The whole list of results: the sizes and the decision.
pub record Settled (s : ExecutionStats) (vs : List ClientExecutionResult) (t : Round) : Type 0 where
  pub fors : length t.stats.votes_for ≡ length s.votes_for + count_for vs
  pub againsts : length t.stats.votes_against ≡ length s.votes_against + count_against vs
  pub quorum_kept : t.stats.quorum_size ≡ s.quorum_size
  pub members_kept : t.stats.membership_size ≡ s.membership_size
  pub decided : Decided t.stats t.resolved t.done

Unseen-record_vote :
    (s : ExecutionStats) (v : ClientExecutionResult) (ws : List ClientExecutionResult)
    → All (IsFresh s) ws
    → All (λ w. (client v == client w) ≡ false) ws
    → All (IsFresh (record_vote v s)) ws
Unseen-record_vote s v [] f ne = tt
Unseen-record_vote s v (w ∷ ws) f ne =
    (record_vote-IsFresh s v w f.0 ne.0, Unseen-record_vote s v ws f.1 ne.1)

pub settle_votes-Settled :
    (vs : List ClientExecutionResult) (t : Round)
    → Decided t.stats t.resolved t.done
    → OncePerClient vs
    → All (IsFresh t.stats) vs
    → Settled t.stats vs (settle_votes t vs)
unfolding settle_votes
settle_votes-Settled [] t h once f = record {
  fors = omega arith;
  againsts = omega arith;
  quorum_kept = refl;
  members_kept = refl;
  decided = h;
}
settle_votes-Settled (v ∷ vs) t h once f =
    let k = record_vote-Tally t.stats v f.0 in
    let e = on_result_resolve-stats t v in
    let rest =
      settle_votes-Settled vs (on_result_resolve t v) (on_result_resolve-Decided t v h f.0) once.1
        (rw e (Unseen-record_vote t.stats v vs f.1 once.0)) in
    let fors' = rw e at rest.fors in
    let againsts' = rw e at rest.againsts in
    let quorum' = rw e at rest.quorum_kept in
    let members' = rw e at rest.members_kept in
    record {
      fors = ground (arith, k.fors);
      againsts = ground (arith, k.againsts);
      quorum_kept = cc (k.quorum_kept);
      members_kept = cc (k.members_kept);
      decided = rest.decided;
    }

pub start-Decided :
    (n : ℕ) → 0 < n → Decided (start_round n).stats (start_round n).resolved (start_round n).done
unfolding start_round
start-Decided n h = record {
  pending = λ e. omega arith;
  won = λ e. cc;
  lost = λ x e. cc;
  complete = (λ e. cc, λ e. absurd (omega arith));
}

pub start-Fresh : (n : ℕ) (vs : List ClientExecutionResult) → All (IsFresh (start_round n).stats) vs
unfolding start_round
start-Fresh n [] = tt
start-Fresh n (v ∷ vs) = ((refl, refl), start-Fresh n vs)
