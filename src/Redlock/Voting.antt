-- ===== src/Redlock/Voting.antt =====
-- packages/distribution-redlock/src/redlock.service.ts, `_attemptOperation`: the votes of one
-- attempt. A client is its position in the set of clients. An attempt is the list of its clients'
-- results in the order in which their promises settle; a promise is resolved at most once.
pub mod Quorum
pub mod Decision
use nestplatform.Base.{
  ℕ, ◌+◌, ◌/◌, Option, none, some, Bool, true, false, ◌||◌, ◌≡◌, refl, List, [], ◌∷◌, ◌++◌, ◌==◌,
  if◌then◌else◌, length, contains, String,
}

-- The errors that a vote or an operation can carry.
pub data Error : Type 0 where
  resource_locked lock_execution no_script script_error unexpected_reply : Error
  other : String → Error

pub data ClientExecutionResult : Type 0 where
  vote_for : ℕ → ℕ → ClientExecutionResult
  vote_against : ℕ → Error → ClientExecutionResult

abbrev pub client : ClientExecutionResult → ℕ
client (vote_for c value) = c
client (vote_against c error) = c

pub record ExecutionStats : Type 0 where
  pub membership_size : ℕ
  pub quorum_size : ℕ
  pub votes_for : List ℕ
  pub votes_against : List (ℕ × Error)

pub data Verdict : Type 0 where
  for : Verdict
  against : Error → Verdict

-- `resolved` is the attempt's promise, `done` the one of its statistics.
pub record Round : Type 0 where
  pub stats : ExecutionStats
  pub resolved : Option Verdict
  pub done : Bool

-- `Set.add`: a member keeps its place.
abbrev pub set_add : ℕ → List ℕ → List ℕ
set_add c cs = if contains c cs then cs else cs ++ c ∷ []

-- `Map.set`: a known key keeps its place and gets the new value.
abbrev pub map_set : ℕ → Error → List (ℕ × Error) → List (ℕ × Error)
map_set c e [] = (c, e) ∷ []
map_set c e ((d, e') ∷ m) = if d == c then (c, e) ∷ m else (d, e') ∷ map_set c e m

abbrev pub last_error : List (ℕ × Error) → Error
last_error [] = unexpected_reply
last_error ((c, e) ∷ []) = e
last_error ((c, e) ∷ (d, e') ∷ m) = last_error ((d, e') ∷ m)

-- The first resolution of a promise stands.
abbrev pub settle : Option Verdict → Verdict → Option Verdict
settle none v = some v
settle (some w) v = some w

record_vote : ClientExecutionResult → ExecutionStats → ExecutionStats
record_vote (vote_for c value) s = record s { votes_for = set_add c s.votes_for }
record_vote (vote_against c e) s = record s { votes_against = map_set c e s.votes_against }

resolve_for : Round → Round
resolve_for t =
    if length t.stats.votes_for == t.stats.quorum_size
    then record t { resolved = settle t.resolved for }
    else t

resolve_against : Round → Round
resolve_against t =
    if length t.stats.votes_against == t.stats.quorum_size
    then record t { resolved = settle t.resolved (against (last_error t.stats.votes_against)) }
    else t

resolve_stats : Round → Round
resolve_stats t =
    if length t.stats.votes_for + length t.stats.votes_against == t.stats.membership_size
    then record t { done = true }
    else t

unfoldable pub on_result_resolve : Round → ClientExecutionResult → Round
unfolding record_vote resolve_for resolve_against resolve_stats
on_result_resolve t result =
    resolve_stats (resolve_against (resolve_for (record t { stats = record_vote result t.stats })))

unfoldable pub quorum : ℕ → ℕ
quorum n = n / 2 + 1

unfoldable pub start_round : ℕ → Round
unfolding quorum
start_round n = record {
  stats = record {
    membership_size = n;
    quorum_size = quorum n;
    votes_for = [];
    votes_against = [];
  };
  resolved = none;
  done = false;
}

unfoldable pub settle_votes : Round → List ClientExecutionResult → Round
settle_votes t [] = t
settle_votes t (v ∷ vs) = settle_votes (on_result_resolve t v) vs

-- `_attemptOperation` over `n` clients, when their results arrive in the order given. Where
-- `resolved` is `none` in the end, its promise never settles.
unfoldable pub attempt_operation : ℕ → List ClientExecutionResult → Round
unfolding settle_votes start_round
attempt_operation n results = settle_votes (start_round n) results
