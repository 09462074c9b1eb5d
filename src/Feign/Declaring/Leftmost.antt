-- ===== src/Feign/Declaring/Leftmost.antt =====
-- Which argument of a declared method a property of the request comes from.
use nestplatform.Base.{
  ℕ, suc, ◌≡◌, refl, ap, sym, ◌∙◌, String, Option, none, some, Bool, true, false, ◌||◌, List, [],
  ◌∷◌, ◌++◌, if◌then◌else◌,
}
use nestplatform.Feign.Objects.{Arg, get_property, own_properties, arg_at}
use nestplatform.Feign.Objects.Merging.{
  or_else, or_else-none, last_property, last_given, or_else_assoc, get-merge_by_indexes,
}
use nestplatform.Feign.Client.{FeignClientOptions, FeignMethodOptions, merged_args, fetch_options}
use nestplatform.Feign.Declaring.{
  ParameterKind, params, queries, headers, same_kind, Reflection, decorate_all, parameter_metadata,
}
use nestplatform.Feign.Declaring.Indexes.{times, indexes, found_indexes}

module _ {V : Type 0} (index_key : ℕ → String) (name : String) (args : List (Arg V)) where
  abbrev property_at : ℕ → Option V
  property_at i = last_property name (own_properties index_key (arg_at args i))

  abbrev declared : ParameterKind → List ParameterKind → Bool
  declared k [] = false
  declared k (j ∷ ks) = same_kind j k || declared k ks

  -- The value of a property in the first argument, from the one with index `i` on, that is decorated
  -- with the kind and has it.
  abbrev pub first_given : ParameterKind → List (List ParameterKind) → ℕ → Option V
  first_given k [] i = none
  first_given k (ks ∷ rest) i =
      or_else (if declared k ks then property_at i else none) (first_given k rest (suc i))

  last_given-append :
      (is js : List ℕ)
      → last_given index_key name (is ++ js) args
        ≡ or_else (last_given index_key name js args) (last_given index_key name is args)
  last_given-append [] js = sym (or_else-none (last_given index_key name js args))
  last_given-append (i ∷ is) js =
      ap (λ o. or_else o (property_at i)) (last_given-append is js)
      ∙ sym (
          or_else_assoc (last_given index_key name js args) (last_given index_key name is args)
            (property_at i))

  or_else_same : (o : Option V) → or_else o o ≡ o
  or_else_same none = refl
  or_else_same (some v) = refl

  chosen_twice :
      (b c : Bool) (o : Option V)
      → or_else (or_else none (if b then o else none)) (if c then o else none)
        ≡ (if b || c then o else none)
  chosen_twice true true o = or_else_same o
  chosen_twice true false o = or_else-none o
  chosen_twice false c o = refl

  last_given-index :
      (b : Bool) (i : ℕ)
      → last_given index_key name (if b then i ∷ [] else []) args
        ≡ or_else none (if b then property_at i else none)
  last_given-index true i = refl
  last_given-index false i = refl

  last_given-times :
      (k : ParameterKind) (ks : List ParameterKind) (i : ℕ)
      → last_given index_key name (times k ks i) args
        ≡ (if declared k ks then property_at i else none)
  last_given-times k [] i = refl
  last_given-times k (j ∷ ks) i =
      last_given-append (times k ks i) (if same_kind j k then i ∷ [] else [])
      ∙ rw (last_given-index (same_kind j k) i, last_given-times k ks i)
          (chosen_twice (same_kind j k) (declared k ks) (property_at i))

  last_given-indexes :
      (k : ParameterKind) (rest : List (List ParameterKind)) (i : ℕ)
      → last_given index_key name (indexes k rest i) args ≡ first_given k rest i
  last_given-indexes k [] i = refl
  last_given-indexes k (ks ∷ rest) i =
      last_given-append (indexes k rest (suc i)) (times k ks i)
      ∙ rw (last_given-times k ks i, last_given-indexes k rest (suc i)) refl

  get-merged_args :
      (is : List ℕ)
      → get_property name (merged_args index_key is args) ≡ last_given index_key name is args
  unfolding get_property
  get-merged_args [] = refl
  get-merged_args (i ∷ is) = get-merge_by_indexes index_key name (i ∷ is) args

module _ (r : Reflection) (target : ℕ) (p : String) where
  open r use {Store, get_own_metadata, get_metadata}

  -- No metadata of the method, of its class or one that it extends.
  abbrev pub Undecorated : Store → Type 0
  Undecorated s =
      (k : ParameterKind)
      → (get_own_metadata k target p s ≡ none) × (get_metadata k target p s ≡ none)

  -- A method whose parameters are decorated as given, and which had no metadata before: a property of
  -- the path parameters, of the queries or of the headers of its requests is that of the first
  -- argument that is decorated as such and has it, although the arguments are spread from the last
  -- to the first.
  pub request_leftmost :
      {V : Type 0} (index_key : ℕ → String) (client : FeignClientOptions) (o : FeignMethodOptions)
      (decorators : List (List ParameterKind)) (args : List (Arg V)) (s : Store) (name : String)
      → Undecorated s
      → let f =
          fetch_options index_key client o
            (parameter_metadata r target p (decorate_all r decorators target p 0 s))
            args in
        (get_property name f.params ≡ first_given index_key name args params decorators 0)
        × (get_property name f.queries ≡ first_given index_key name args queries decorators 0)
        × (get_property name f.headers ≡ first_given index_key name args headers decorators 0)
  unfolding fetch_options parameter_metadata
  request_leftmost index_key client o decorators args s name fresh =
      let at = λ (k : ParameterKind).
        ap (λ is. get_property name (merged_args index_key is args))
          (found_indexes r k target p decorators s (fresh k).0 (fresh k).1)
        ∙ get-merged_args index_key name args (indexes k decorators 0)
        ∙ last_given-indexes index_key name args k decorators 0 in
      (at params, at queries, at headers)
