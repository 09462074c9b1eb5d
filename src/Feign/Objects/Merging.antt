-- ===== src/Feign/Objects/Merging.antt =====
-- Which argument a property of the merged object comes from.
use nestplatform.Base.{
  ℕ, ◌≡◌, refl, ap, ◌∙◌, String, Option, none, some, Bool, true, false, List, [], ◌∷◌, str_eq,
  str_eq_iff, arith, if◌then◌else◌,
}
use nestplatform.Feign.Objects.{
  Arg, nullish, other_value, plain, array, units, set_property, get_property, spread, arg_at,
  own_properties, merge_arg, merge_indexes, merge_by_indexes,
}

module _ {V : Type 0} where
  -- The first of two, or the second where there is no first.
  abbrev pub or_else : Option V → Option V → Option V
  or_else none b = b
  or_else (some a) b = some a

  pub or_else_assoc : (a b c : Option V) → or_else a (or_else b c) ≡ or_else (or_else a b) c
  or_else_assoc none b c = refl
  or_else_assoc (some a) b c = refl

  pub or_else-none : (a : Option V) → or_else a none ≡ a
  or_else-none none = refl
  or_else-none (some a) = refl

  -- The last value of a key.
  abbrev pub last_property : String → List (String × V) → Option V
  last_property k [] = none
  last_property k ((j, u) ∷ o) = or_else (last_property k o) (if str_eq j k then some u else none)

  get-set_property :
      (j k : String) (v : V) (o : List (String × V))
      → get_property j (set_property k v o) ≡ (if str_eq k j then some v else get_property j o)
  unfolding get_property set_property
  get-set_property j k v [] = refl
  get-set_property j k v ((i, u) ∷ o) =
      ground (arith, str_eq_iff i k, str_eq_iff k j, str_eq_iff i j, get-set_property j k v o)

  test_or_else :
      (b : Bool) (v : V) (o : Option V)
      → (if b then some v else o) ≡ or_else (if b then some v else none) o
  test_or_else true v o = refl
  test_or_else false v o = refl

  pub get-spread :
      (k : String) (acc o : List (String × V))
      → get_property k (spread acc o) ≡ or_else (last_property k o) (get_property k acc)
  unfolding spread
  get-spread k acc [] = refl
  get-spread k acc ((j, v) ∷ o) =
      get-spread k (set_property j v acc) o
      ∙ ap (or_else (last_property k o))
          (get-set_property k j v acc ∙ test_or_else (str_eq j k) v (get_property k acc))
      ∙ or_else_assoc (last_property k o) (if str_eq j k then some v else none) (get_property k acc)

  module _ (index_key : ℕ → String) where
    -- The value of a key in the last of the named arguments that has it.
    abbrev pub last_given : String → List ℕ → List (Arg V) → Option V
    last_given k [] args = none
    last_given k (i ∷ is) args =
        or_else (last_given k is args) (last_property k (own_properties index_key (arg_at args i)))

    get-merge_arg :
        (k : String) (acc : List (String × V)) (a : Arg V)
        → get_property k (merge_arg index_key acc a)
          ≡ or_else (last_property k (own_properties index_key a)) (get_property k acc)
    get-merge_arg k acc nullish = refl
    get-merge_arg k acc other_value = get-spread k acc []
    get-merge_arg k acc (plain o) = get-spread k acc o
    get-merge_arg k acc (array vs) = get-spread k acc (own_properties index_key (array vs))
    get-merge_arg k acc (units vs) = get-spread k acc (own_properties index_key (units vs))

    get-merge_indexes :
        (k : String) (acc : List (String × V)) (is : List ℕ) (args : List (Arg V))
        → get_property k (merge_indexes index_key acc is args)
          ≡ or_else (last_given k is args) (get_property k acc)
    unfolding merge_indexes
    get-merge_indexes k acc [] args = refl
    get-merge_indexes k acc (i ∷ is) args =
        get-merge_indexes k (merge_arg index_key acc (arg_at args i)) is args
        ∙ ap (or_else (last_given k is args)) (get-merge_arg k acc (arg_at args i))
        ∙ or_else_assoc (last_given k is args)
            (last_property k (own_properties index_key (arg_at args i))) (get_property k acc)

    -- A property of the merged object is that of the last of the named arguments that has it, in the
    -- order of the indexes; `null`, `undefined` and missing arguments count for nothing.
    pub get-merge_by_indexes :
        (k : String) (is : List ℕ) (args : List (Arg V))
        → get_property k (merge_by_indexes index_key is args) ≡ last_given k is args
    unfolding merge_by_indexes get_property
    get-merge_by_indexes k is args =
        get-merge_indexes k [] is args ∙ or_else-none (last_given k is args)
