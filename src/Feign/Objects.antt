-- ===== src/Feign/Objects.antt =====
-- Plain objects of packages/feign/src/feign/feign-feature.decoration.ts and the merge of arguments
-- into them (`mergeByIndexes`). An object is the list of its own properties.
pub mod Merging
use nestplatform.Base.{
  ℕ, zero, suc, String, Option, none, some, List, [], ◌∷◌, str_eq, if◌then◌else◌,
}

-- An argument: `null` or `undefined`, a plain object, an array, a text by its units, or another value
-- without properties of its own, such as a number, a `FormData` or a `Blob`.
pub data Arg (V : Type 0) : Type 0 where
  nullish other_value : Arg V
  plain : List (String × V) → Arg V
  array units : List V → Arg V

module _ {V : Type 0} where
  unfoldable pub set_property : String → V → List (String × V) → List (String × V)
  set_property k v [] = (k, v) ∷ []
  set_property k v ((j, u) ∷ o) =
      let rest = set_property k v o in if str_eq j k then (j, v) ∷ o else (j, u) ∷ rest

  unfoldable pub get_property : String → List (String × V) → Option V
  get_property k [] = none
  get_property k ((j, u) ∷ o) = if str_eq j k then some u else get_property k o

  -- `{ ...acc, ...properties }`
  unfoldable pub spread : List (String × V) → List (String × V) → List (String × V)
  unfolding set_property
  spread acc [] = acc
  spread acc ((k, v) ∷ o) = spread (set_property k v acc) o

  abbrev pub arg_at : List (Arg V) → ℕ → Arg V
  arg_at [] i = nullish
  arg_at (a ∷ args) zero = a
  arg_at (a ∷ args) (suc i) = arg_at args i

-- `index_key` is the name of an index.
module _ {V : Type 0} (index_key : ℕ → String) where
  abbrev indexed : ℕ → List V → List (String × V)
  indexed i [] = []
  indexed i (v ∷ vs) = (index_key i, v) ∷ indexed (suc i) vs

  -- The properties that a spread copies.
  abbrev pub own_properties : Arg V → List (String × V)
  own_properties nullish = []
  own_properties other_value = []
  own_properties (plain o) = o
  own_properties (array vs) = indexed 0 vs
  own_properties (units vs) = indexed 0 vs

  -- One round of the `reduce`.
  abbrev pub merge_arg : List (String × V) → Arg V → List (String × V)
  merge_arg acc nullish = acc
  merge_arg acc other_value = spread acc []
  merge_arg acc (plain o) = spread acc o
  merge_arg acc (array vs) = spread acc (indexed 0 vs)
  merge_arg acc (units vs) = spread acc (indexed 0 vs)

  unfoldable pub merge_indexes : List (String × V) → List ℕ → List (Arg V) → List (String × V)
  unfolding spread
  merge_indexes acc [] args = acc
  merge_indexes acc (i ∷ is) args = merge_indexes (merge_arg acc (arg_at args i)) is args

  unfoldable pub merge_by_indexes : List ℕ → List (Arg V) → List (String × V)
  unfolding merge_indexes
  merge_by_indexes is args = merge_indexes [] is args
