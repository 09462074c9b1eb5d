-- ===== src/Cacheable/Pending.antt =====
-- `fetchCachedValue` of packages/cacheable/src/cacheable-feature.decoration.ts: concurrent calls that
-- share a lookup. The parts of a call before and after its `await` are steps; a promise of the cache
-- manager settles when it likes, and a call that waits for it goes on at any time after that. `R` is
-- what a promise settles with, a value or an error.
pub mod Sharing
mod Examples
use nestplatform.Base.{
  ℕ, suc, ◌≡◌, String, Option, none, some, Bool, true, false, List, [], ◌∷◌, ◌++◌, ◌==◌, str_eq,
  if◌then◌else◌,
}

-- Promises are numbered in the order in which they are made. `key_of` is the key that a promise looks
-- up; `lookups` counts the calls of `cache.get` that gave a promise, `resumed` the calls that went
-- on after their `await`, by key.
pub record Lookups (R : Type 0) : Type 0 where
  pub pending : String → Option ℕ
  pub next_promise : ℕ
  pub key_of : ℕ → String
  pub results : ℕ → Option R
  pub waiting : List (String × ℕ)
  pub lookups : String → ℕ
  pub resumed : String → ℕ

abbrev pub counted_up : String → (String → ℕ) → String → ℕ
counted_up k n j = if str_eq k j then suc (n j) else n j

module _ {R : Type 0} where
  unfoldable pub no_lookups : Lookups R
  no_lookups = record {
    pending = λ k. none;
    next_promise = 0;
    key_of = λ p. "";
    results = λ p. none;
    waiting = [];
    lookups = λ k. 0;
    resumed = λ k. 0;
  }

  abbrev pub start_lookup : String → Lookups R → Lookups R
  start_lookup k s = record s {
    pending = λ j. if str_eq k j then some s.next_promise else s.pending j;
    next_promise = suc s.next_promise;
    key_of = λ q. if s.next_promise == q then k else s.key_of q;
    results = λ q. if s.next_promise == q then none else s.results q;
    waiting = (k, s.next_promise) ∷ s.waiting;
    lookups = counted_up k s.lookups;
  }

  -- A call up to its `await`.
  unfoldable pub fetch_cached_value : String → Lookups R → Lookups R
  fetch_cached_value k s = elim (s.pending k) [
    | none ↦ start_lookup k s
    | some p ↦ record s { waiting = (k, p) ∷ s.waiting }
  ]

  unfoldable pub settle_promise : ℕ → R → Lookups R → Lookups R
  settle_promise p r s = record s { results = λ q. if p == q then some r else s.results q }

  -- The `finally`: whatever promise stands under the key is taken away.
  unfoldable pub resume : String → List (String × ℕ) → Lookups R → Lookups R
  resume k others s = record s {
    pending = λ j. if str_eq k j then none else s.pending j;
    waiting = others;
    resumed = counted_up k s.resumed;
  }

  pub data LookupStep : Lookups R → Lookups R → Type 0 where
    calls : (s : Lookups R) → (k : String) → LookupStep s (fetch_cached_value k s)
    -- `cache.get` throws before there is a promise.
    throws : (s : Lookups R) → (k : String) → s.pending k ≡ none → LookupStep s s
    settles :
        (s : Lookups R)
        → (p : ℕ) → (r : R) → s.results p ≡ none
        → LookupStep s (settle_promise p r s)
    resumes :
        (s : Lookups R) (before after' : List (String × ℕ)) (k : String) (p : ℕ) (r : R)
        → s.waiting ≡ before ++ (k, p) ∷ after'
        → s.results p ≡ some r
        → LookupStep s (resume k (before ++ after') s)

  pub data LookupSteps : Lookups R → Lookups R → Type 0 where
    done : (s : Lookups R) → LookupSteps s s
    more : (s t u : Lookups R) → LookupStep s t → LookupSteps t u → LookupSteps s u
