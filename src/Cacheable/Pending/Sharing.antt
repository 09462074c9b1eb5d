-- ===== src/Cacheable/Pending/Sharing.antt =====
-- What holds at every moment, in whatever order calls begin, promises settle and calls go on.
use mathlib.Core.Path.{subst}
use nestplatform.Base.{
  ℕ, ◌+◌, ◌≤◌, ◌<◌, ◌≡◌, ap, sym, ◌∙◌, inl, inr, String, Option, none, some, Bool, true, false,
  ◌&&◌, ◌||◌, List, [], ◌∷◌, ◌++◌, arith, Bool-cases, Option-cases, str_eq, str_eq_iff, ==_iff,
  ◌==◌, All,
}
use nestplatform.Cacheable.Pending.{
  Lookups, no_lookups, start_lookup, fetch_cached_value, settle_promise, resume, LookupStep, calls,
  throws, settles, resumes, LookupSteps, done, more,
}

abbrev pub one_if_some : Option ℕ → ℕ
one_if_some none = 0
one_if_some (some p) = 1

-- Whether a call of a key waits for a promise.
abbrev pub waits_for : String → ℕ → List (String × ℕ) → Bool
waits_for k p [] = false
waits_for k p ((j, q) ∷ ws) = (str_eq j k && (q == p)) || waits_for k p ws

All-map :
    {A : Type 0} (P Q : A → Type 0) (xs : List A) → ((x : A) → P x → Q x) → All P xs → All Q xs
All-map P Q [] f h = tt
All-map P Q (x ∷ xs) f h = (f x h.0, All-map P Q xs f h.1)

All-remove :
    {A : Type 0} (P : A → Type 0) (xs : List A) (y : A) (ys : List A)
    → All P (xs ++ y ∷ ys)
    → All P (xs ++ ys)
All-remove P [] y ys h = h.1
All-remove P (x ∷ xs) y ys h = (h.0, All-remove P xs y ys h.1)

waits_for-remove :
    (j : String) (q : ℕ) (xs : List (String × ℕ)) (k : String) (p : ℕ) (ys : List (String × ℕ))
    → str_eq k j ≡ false
    → waits_for j q (xs ++ (k, p) ∷ ys) ≡ true
    → waits_for j q (xs ++ ys) ≡ true
waits_for-remove j q [] k p ys other h = ground arith
waits_for-remove j q ((i, o) ∷ xs) k p ys other h =
    ground (arith, waits_for-remove j q xs k p ys other)

module _ {R : Type 0} where
  -- A promise that was made for a key.
  abbrev pub MadeFor : Lookups R → String × ℕ → Type 0
  MadeFor s (k, p) = (s.key_of p ≡ k) × (p < s.next_promise)

  pub record Inv (s : Lookups R) : Type 0 where
    -- A pending promise, and one that a call waits for, looks up the call's own key.
    pub pending_matches : (k : String) (p : ℕ) → s.pending k ≡ some p → MadeFor s (k, p)
    pub waiting_matches : All (MadeFor s) s.waiting
    -- A promise is pending only while a call waits for it.
    pub no_leak : (k : String) (p : ℕ) → s.pending k ≡ some p → waits_for k p s.waiting ≡ true
    -- There is one lookup of a key more than calls of it that went on, while one is pending, and
    -- otherwise at most as many.
    pub shared : (k : String) → s.lookups k ≤ s.resumed k + one_if_some (s.pending k)

  no_lookups-Inv : Inv no_lookups
  unfolding no_lookups
  no_lookups-Inv = record {
    pending_matches = λ k p h. cc;
    waiting_matches = tt;
    no_leak = λ k p h. cc;
    shared = λ k. omega arith;
  }

  settle_promise-Inv : (p : ℕ) (r : R) (s : Lookups R) → Inv s → Inv (settle_promise p r s)
  unfolding settle_promise
  settle_promise-Inv p r s i = record {
    pending_matches = i.pending_matches;
    waiting_matches = i.waiting_matches;
    no_leak = i.no_leak;
    shared = i.shared;
  }

  start_lookup-Inv :
      (k : String) (s : Lookups R) → s.pending k ≡ none → Inv s → Inv (start_lookup k s)
  start_lookup-Inv k s idle i = record {
    pending_matches =
        λ j q h. ground (arith, i.pending_matches j q, str_eq_iff k j, ==_iff s.next_promise q);
    waiting_matches = (
      ground (arith, ==_iff s.next_promise s.next_promise),
      All-map (MadeFor s) (MadeFor (start_lookup k s)) s.waiting
          (λ x h. ground (arith, h, ==_iff s.next_promise x.1)) i.waiting_matches,
    );
    no_leak = λ j q h. ground (arith, i.no_leak j q, str_eq_iff k j, ==_iff s.next_promise q);
    shared = λ j. ground (arith, i.shared j, str_eq_iff k j, ap one_if_some idle);
  }

  fetch_cached_value-Inv : (k : String) (s : Lookups R) → Inv s → Inv (fetch_cached_value k s)
  unfolding fetch_cached_value
  fetch_cached_value-Inv k s i = elim (Option-cases (s.pending k)) [
    | inl idle ↦ rw (idle, fetch_cached_value) (start_lookup-Inv k s idle i)
    | inr (p, busy) ↦
        rw (busy, fetch_cached_value)
          (record {
            pending_matches = i.pending_matches;
            waiting_matches = (i.pending_matches k p busy, i.waiting_matches);
            no_leak = λ j q h. ground (arith, i.no_leak j q h);
            shared = i.shared;
          })
  ]

  resume-Inv :
      (k : String) (p : ℕ) (before after' : List (String × ℕ)) (s : Lookups R)
      → s.waiting ≡ before ++ (k, p) ∷ after'
      → Inv s
      → Inv (resume k (before ++ after') s)
  unfolding resume
  resume-Inv k p before after' s at i = record {
    pending_matches = λ j q h. ground (arith, i.pending_matches j q);
    waiting_matches =
        All-remove (MadeFor s) before (k, p) after' (subst (All (MadeFor s)) at i.waiting_matches);
    no_leak = λ j q h. elim (Bool-cases (str_eq k j)) [
      | inl same ↦ absurd (ground arith)
      | inr other ↦
          waits_for-remove j q before k p after' other
            (sym (ap (waits_for j q) at) ∙ i.no_leak j q (ground arith))
    ];
    shared = λ j. ground (arith, i.shared j, str_eq_iff k j);
  }

  LookupStep-Inv : {s t : Lookups R} → LookupStep s t → Inv s → Inv t
  LookupStep-Inv (calls s k) i = fetch_cached_value-Inv k s i
  LookupStep-Inv (throws s k idle) i = i
  LookupStep-Inv (settles s p r open') i = settle_promise-Inv p r s i
  LookupStep-Inv (resumes s before after' k p r at settled) i = resume-Inv k p before after' s at i

  LookupSteps-Inv : {s t : Lookups R} → LookupSteps s t → Inv s → Inv t
  LookupSteps-Inv (done s) i = i
  LookupSteps-Inv (more s t u step rest) i = LookupSteps-Inv rest (LookupStep-Inv step i)

  -- From when there are no lookups on, in whatever order calls begin, promises settle and calls go
  -- on: a call waits for a lookup of its own key; a promise is pending only while a call waits for
  -- it; and of every key there are at most as many lookups as calls that went on, and one more while
  -- one is pending, so that calls that overlap share a lookup.
  pub lookups-Inv : (s : Lookups R) → LookupSteps no_lookups s → Inv s
  lookups-Inv s steps = LookupSteps-Inv steps no_lookups-Inv
