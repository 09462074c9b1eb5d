-- ===== src/Redlock/Voting/Decision.antt =====
-- The decision of one attempt of `_attemptOperation` once every client has answered.
use mathlib.Core.Logic.{∥∥₁_elim}
use mathlib.Core.List.{Perm, Permᴰ}
use native.Mathlib.Nat.{ℕ_set}
use nestplatform.Base.{
  ◌++◌, ◌∙◌, ap, ℕ, ◌+◌, ◌%◌, ◌≤◌, ◌<◌, ◌≡◌, ◌≢◌, ◌↔◌, refl, Option, none, some, true, List, [],
  ◌∷◌, arith, length,
}
use nestplatform.Redlock.Voting.{
  Error, ClientExecutionResult, Verdict, for, against, quorum, start_round, attempt_operation,
}
use nestplatform.Redlock.Voting.Quorum.{
  is_for, count_for, count_against, OncePerClient, Settled, settle_votes-Settled, start-Decided,
  start-Fresh,
}

pub count_for-add-count_against :
    (vs : List ClientExecutionResult) → count_for vs + count_against vs ≡ length vs
count_for-add-count_against [] = omega arith
count_for-add-count_against (v ∷ vs) = ground (arith, count_for-add-count_against vs)

-- A resolution that the counts justify is determined by them, since two sides cannot both have a
-- quorum.
determined :
    (o : Option Verdict) (f a q n : ℕ)
    → (o ≡ none → (f < q) × (a < q))
    → (o ≡ some for → q ≤ f)
    → ((e : Error) → o ≡ some (against e) → q ≤ a)
    → f + a ≡ n
    → n < q + q
    → ((o ≡ some for) ↔ (q ≤ f))
      × (((e : Error) × (o ≡ some (against e))) ↔ (q ≤ a))
      × ((o ≡ none) ↔ ((f < q) × (a < q)))
determined none f a q n pending won lost e h =
    let p = pending refl in
    (
      (λ x. absurd (ground arith), λ x. absurd (omega arith)),
      (λ x. absurd (ground (arith, x.1)), λ x. absurd (omega arith)),
      (λ x. p, λ x. refl),
    )
determined (some for) f a q n pending won lost e h =
    let p = won refl in
    (
      (λ x. p, λ x. refl),
      (λ x. absurd (ground (arith, x.1)), λ x. absurd (omega arith)),
      (λ x. absurd (ground arith), λ x. absurd (omega arith)),
    )
determined (some (against error)) f a q n pending won lost e h =
    let p = lost error refl in
    (
      (λ x. absurd (ground arith), λ x. absurd (omega arith)),
      (λ x. p, λ x. (error, refl)),
      (λ x. absurd (ground arith), λ x. absurd (omega arith)),
    )

pub quorum_majority : (n : ℕ) → n < quorum n + quorum n
unfolding quorum
quorum_majority n = omega arith

module _ (n : ℕ) (vs : List ClientExecutionResult) (members : 0 < n) (all : length vs ≡ n)
    (once : OncePerClient vs) where
  final : Settled (start_round n).stats vs (attempt_operation n vs)
  unfolding attempt_operation
  final = settle_votes-Settled vs (start_round n) (start-Decided n members) once (start-Fresh n vs)

  sizes :
      (length (attempt_operation n vs).stats.votes_for ≡ count_for vs)
      × (length (attempt_operation n vs).stats.votes_against ≡ count_against vs)
      × ((attempt_operation n vs).stats.quorum_size ≡ quorum n)
      × ((attempt_operation n vs).stats.membership_size ≡ n)
  unfolding start_round
  sizes = (
    omega (arith, final.fors),
    omega (arith, final.againsts),
    final.quorum_kept,
    final.members_kept,
  )

  -- Once all `n` clients have answered, each once and in any order, the attempt has been resolved in
  -- favour exactly if a quorum voted for it, against exactly if a quorum voted against it, and not
  -- at all exactly if neither side has a quorum; and the promise of its statistics is resolved.
  pub attempt_operation_decision :
      (((attempt_operation n vs).resolved ≡ some for) ↔ (quorum n ≤ count_for vs))
      × (((e : Error) × ((attempt_operation n vs).resolved ≡ some (against e)))
          ↔ (quorum n ≤ count_against vs))
      × (((attempt_operation n vs).resolved ≡ none)
          ↔ ((count_for vs < quorum n) × (count_against vs < quorum n)))
      × ((attempt_operation n vs).done ≡ true)
  attempt_operation_decision =
      let k = sizes in
      let d = final.decided in
      let r =
        determined (attempt_operation n vs).resolved (count_for vs) (count_against vs) (quorum n) n
          (λ e. let p = d.pending e in omega arith) (λ e. let p = d.won e in omega arith)
          (λ x e. let p = d.lost x e in omega arith) (omega (arith, count_for-add-count_against vs))
          (quorum_majority n) in
      (r.0, r.1, r.2, d.complete.1 (omega (arith, count_for-add-count_against vs)))

  -- With an odd number of clients every attempt is resolved once all have answered.
  pub attempt_operation_odd : n % 2 ≡ 1 → (attempt_operation n vs).resolved ≢ none
  unfolding quorum
  attempt_operation_odd odd e =
      let p = (attempt_operation_decision.2).0 e in omega (arith, count_for-add-count_against vs)

-- When the clients are even in number and half of them vote each way, the promise of the attempt
-- is not resolved although every client has answered.
pub attempt_operation_tie :
    (k : ℕ) (vs : List ClientExecutionResult)
    → 0 < k
    → OncePerClient vs
    → count_for vs ≡ k
    → count_against vs ≡ k
    → ((attempt_operation (k + k) vs).resolved ≡ none)
      × ((attempt_operation (k + k) vs).done ≡ true)
unfolding quorum
attempt_operation_tie k vs pos once fors againsts =
    let d =
      attempt_operation_decision (k + k) vs (omega arith)
        (omega (arith, count_for-add-count_against vs)) once in
    (d.2.1 (omega arith, omega arith), d.3)

count_for-append :
    (xs ys : List ClientExecutionResult) → count_for (xs ++ ys) ≡ count_for xs + count_for ys
count_for-append [] ys = omega arith
count_for-append (x ∷ xs) ys = ground (arith, count_for-append xs ys)

count_for-permᴰ : {xs ys : List ClientExecutionResult} → Permᴰ xs ys → count_for xs ≡ count_for ys
count_for-permᴰ Permᴰ.nil = refl
count_for-permᴰ (Permᴰ.cons x p) = ground (arith, ap is_for x, count_for-permᴰ p)
count_for-permᴰ (Permᴰ.swap x y) = ground (arith, ap is_for x, ap is_for y)
count_for-permᴰ (Permᴰ.trans p q) = count_for-permᴰ p ∙ count_for-permᴰ q

pub count_for-perm : {xs ys : List ClientExecutionResult} → Perm xs ys → count_for xs ≡ count_for ys
count_for-perm p = ∥∥₁_elim p (ℕ_set _ _) count_for-permᴰ

-- Results that have arrived so far: some of `votes`, each client's once, in any order.
pub record Arrivals (arrived votes : List ClientExecutionResult) : Type 0 where
  pub missing : List ClientExecutionResult
  pub reordered : Perm (arrived ++ missing) votes
  pub once : OncePerClient arrived

pub Arrivals-count_for :
    {arrived votes : List ClientExecutionResult}
    → Arrivals arrived votes
    → count_for arrived ≤ count_for votes
Arrivals-count_for {arrived} a =
    omega (arith, count_for-perm a.reordered, count_for-append arrived a.missing)

-- A resolution in favour, at any time, rests on a quorum of votes in favour.
pub resolved_for_quorum :
    (n : ℕ) (arrived : List ClientExecutionResult)
    → 0 < n
    → OncePerClient arrived
    → (attempt_operation n arrived).resolved ≡ some for
    → quorum n ≤ count_for arrived
unfolding attempt_operation start_round
resolved_for_quorum n arrived pos once e =
    let t =
      settle_votes-Settled arrived (start_round n) (start-Decided n pos) once
        (start-Fresh n arrived) in
    let p = t.decided.won e in omega (arith, t.fors, t.quorum_kept)
