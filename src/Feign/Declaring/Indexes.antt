-- ===== src/Feign/Declaring/Indexes.antt =====
-- The indexes that the decorators of a method leave, for each kind of them.
use nestplatform.Base.{
  ℕ, suc, ◌≡◌, refl, ap, sym, ◌∙◌, String, Option, none, some, true, false, List, [], ◌∷◌, ◌++◌,
  append_assoc, append-nil, str_eq_refl, Bool-cases, inl, inr, if◌then◌else◌,
}
use nestplatform.Feign.Client.{or_empty}
use nestplatform.Feign.Declaring.{
  ParameterKind, params, queries, body, headers, same_kind, Reflection, decorate_parameter,
  decorate_one, decorate_all,
}

-- The indexes that decorators of a kind leave, in the order in which they are applied.
abbrev pub times : ParameterKind → List ParameterKind → ℕ → List ℕ
times k [] i = []
times k (j ∷ ks) i = times k ks i ++ (if same_kind j k then i ∷ [] else [])

abbrev pub indexes : ParameterKind → List (List ParameterKind) → ℕ → List ℕ
indexes k [] i = []
indexes k (ks ∷ rest) i = indexes k rest (suc i) ++ times k ks i

-- Metadata of no index is none.
abbrev listed_indexes : List ℕ → Option (List ℕ)
listed_indexes [] = none
listed_indexes (i ∷ is) = some (i ∷ is)

or_empty-listed : (is : List ℕ) → or_empty (listed_indexes is) ≡ is
or_empty-listed [] = refl
or_empty-listed (i ∷ is) = refl

listed-push : (is : List ℕ) (i : ℕ) → listed_indexes (is ++ i ∷ []) ≡ some (is ++ i ∷ [])
listed-push [] i = refl
listed-push (j ∷ is) i = refl

same_kind_eq : (j k : ParameterKind) → same_kind j k ≡ true → j ≡ k
same_kind_eq params params h = refl
same_kind_eq queries queries h = refl
same_kind_eq body body h = refl
same_kind_eq headers headers h = refl
same_kind_eq params queries h = cc
same_kind_eq params body h = cc
same_kind_eq params headers h = cc
same_kind_eq queries params h = cc
same_kind_eq queries body h = cc
same_kind_eq queries headers h = cc
same_kind_eq body params h = cc
same_kind_eq body queries h = cc
same_kind_eq body headers h = cc
same_kind_eq headers params h = cc
same_kind_eq headers queries h = cc
same_kind_eq headers body h = cc

same_kind_refl : (k : ParameterKind) → same_kind k k ≡ true
same_kind_refl params = refl
same_kind_refl queries = refl
same_kind_refl body = refl
same_kind_refl headers = refl

module _ (r : Reflection) (k : ParameterKind) (target : ℕ) (p : String) where
  open r use {Store, get_own_metadata, get_metadata}

  -- The metadata of the kind is that of the indexes `is`.
  record Has (is : List ℕ) (s : Store) : Type 0 where
    own : get_own_metadata k target p s ≡ listed_indexes is
    found : get_metadata k target p s ≡ listed_indexes is

  push_same :
      (i : ℕ) (is : List ℕ) (s : Store)
      → Has is s
      → Has (is ++ i ∷ []) (decorate_parameter r k target (some p) i s)
  unfolding decorate_parameter
  push_same i is s h =
      let pushed : or_empty (get_own_metadata k target p s) ++ i ∷ [] ≡ is ++ i ∷ [] =
        ap (λ o. or_empty o ++ i ∷ []) h.own ∙ ap (λ js. js ++ i ∷ []) (or_empty-listed is) in
      let js = or_empty (get_own_metadata k target p s) ++ i ∷ [] in
      record {
        own =
            r.get_own-define k k js target p p s
            ∙ rw (same_kind_refl k, str_eq_refl p) (ap some pushed ∙ sym (listed-push is i));
        found =
            r.get-define k k js target p p s
            ∙ rw (same_kind_refl k, str_eq_refl p) (ap some pushed ∙ sym (listed-push is i));
      }

  push_other :
      (j : ParameterKind) (i : ℕ) (is : List ℕ) (s : Store)
      → same_kind j k ≡ false
      → Has is s
      → Has is (decorate_parameter r j target (some p) i s)
  unfolding decorate_parameter
  push_other j i is s other h =
      let js = or_empty (get_own_metadata j target p s) ++ i ∷ [] in
      record {
        own = r.get_own-define k j js target p p s ∙ rw other h.own;
        found = r.get-define k j js target p p s ∙ rw other h.found;
      }

  decorate_parameter-Has :
      (j : ParameterKind) (i : ℕ) (is : List ℕ) (s : Store)
      → Has is s
      → Has
          (is ++ (if same_kind j k then i ∷ [] else []))
          (decorate_parameter r j target (some p) i s)
  decorate_parameter-Has j i is s h = elim (Bool-cases (same_kind j k)) [
    | inl same ↦ rw (same, same_kind_eq j k same) (push_same i is s h)
    | inr other ↦ rw (other, append-nil is) (push_other j i is s other h)
  ]

  decorate_one-Has :
      (ks : List ParameterKind) (i : ℕ) (is : List ℕ) (s : Store)
      → Has is s
      → Has (is ++ times k ks i) (decorate_one r ks target p i s)
  unfolding decorate_one
  decorate_one-Has [] i is s h = rw (append-nil is) h
  decorate_one-Has (j ∷ ks) i is s h =
      rw (← append_assoc is (times k ks i) (if same_kind j k then i ∷ [] else [])) (
        decorate_parameter-Has j i (is ++ times k ks i) (decorate_one r ks target p i s)
          (decorate_one-Has ks i is s h))

  decorate_all-Has :
      (rest : List (List ParameterKind)) (i : ℕ) (s : Store)
      → Has [] s
      → Has (indexes k rest i) (decorate_all r rest target p i s)
  unfolding decorate_all
  decorate_all-Has [] i s h = h
  decorate_all-Has (ks ∷ rest) i s h =
      decorate_one-Has ks i (indexes k rest (suc i)) (decorate_all r rest target p (suc i) s)
        (decorate_all-Has rest (suc i) s h)

  pub found_indexes :
      (rest : List (List ParameterKind)) (s : Store)
      → get_own_metadata k target p s ≡ none
      → get_metadata k target p s ≡ none
      → or_empty (get_metadata k target p (decorate_all r rest target p 0 s)) ≡ indexes k rest 0
  found_indexes rest s own found =
      ap or_empty (decorate_all-Has rest 0 s (record { own = own; found = found })).found
      ∙ or_empty-listed (indexes k rest 0)
