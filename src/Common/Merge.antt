-- ===== src/Common/Merge.antt =====
-- packages/common/src/common.helpers.ts: `deepMerge` and `mergeWithDefaults`.
pub mod Overrides
use nestplatform.Base.{
  ℕ, String, Option, none, some, Bool, true, false, ◌||◌, List, [], ◌∷◌, ◌++◌, ◌==◌, str_eq,
  str_append, if◌then◌else◌,
}

-- A value. Elements of arrays and sets are told apart by numbers, the keys of a map by texts, and of
-- an object only its own properties count.
mutual
  pub data Value : Type 0 where
    undefined_value null_value : Value
    primitive : ℕ → Value
    array set_of : List ℕ → Value
    map_of object : Entries → Value

  pub data Entries : Type 0 where
    no_entries : Entries
    entry : String → Value → Entries → Entries

unfoldable pub get_entry : String → Entries → Option Value
get_entry k no_entries = none
get_entry k (entry j v es) = if str_eq j k then some v else get_entry k es

unfoldable pub set_entry : String → Value → Entries → Entries
set_entry k v no_entries = entry k v no_entries
set_entry k v (entry j u es) =
    let rest = set_entry k v es in if str_eq j k then entry j v es else entry j u rest

-- `isPlainObject`: sets and maps pass, arrays do not.
abbrev pub is_plain_object : Value → Bool
is_plain_object undefined_value = false
is_plain_object null_value = false
is_plain_object (primitive n) = false
is_plain_object (array xs) = false
is_plain_object (set_of xs) = true
is_plain_object (map_of es) = true
is_plain_object (object es) = true

-- What a spread copies, and `Object.keys` lists.
abbrev pub own_entries : Value → Entries
own_entries (object es) = es
own_entries _ = no_entries

abbrev pub plain_or_not : Option Value → Bool
plain_or_not none = false
plain_or_not (some v) = is_plain_object v

abbrev pub own_of : Option Value → Entries
own_of none = no_entries
own_of (some v) = own_entries v

-- `result[key] = …`, or nothing.
abbrev pub put : String → Option Value → Entries → Entries
put k none result = result
put k (some v) result = set_entry k v result

unfoldable mutual
  -- What `mergeWithDefaults` sets a property to, given the default; `undefined` sets nothing.
  pub override_value : Option Value → Value → Option Value
  override_value d undefined_value = none
  override_value d null_value = some null_value
  override_value d (primitive n) = some (primitive n)
  override_value d (array xs) = some (array xs)
  override_value d (set_of xs) = some (if plain_or_not d then object (own_of d) else set_of xs)
  override_value d (map_of es) = some (if plain_or_not d then object (own_of d) else map_of es)
  override_value d (object es) =
      let m = override_entries (own_of d) (own_of d) es in
      some (if plain_or_not d then object m else object es)

  -- Its loop over the overrides, from `result` on.
  pub override_entries : Entries → Entries → Entries → Entries
  override_entries result defaults no_entries = result
  override_entries result defaults (entry k v es) =
      override_entries (put k (override_value (get_entry k defaults) v) result) defaults es

unfoldable pub merge_with_defaults : Entries → Option Entries → Entries
unfolding override_entries
merge_with_defaults defaults none = defaults
merge_with_defaults defaults (some overrides) = override_entries defaults defaults overrides

-- `isMergeable`
abbrev pub is_mergeable : Value → Value → Bool
is_mergeable undefined_value b = false
is_mergeable null_value b = false
is_mergeable (primitive n) b = false
is_mergeable (array xs) (array ys) = true
is_mergeable (array xs) _ = false
is_mergeable (set_of xs) b = is_plain_object b
is_mergeable (map_of es) b = is_plain_object b
is_mergeable (object es) b = is_plain_object b

abbrev pub has : ℕ → List ℕ → Bool
has x [] = false
has x (y ∷ ys) = (y == x) || has x ys

-- `new Set([...target, ...source])`
abbrev pub union : List ℕ → List ℕ → List ℕ
union xs [] = xs
union xs (y ∷ ys) = union (if has y xs then xs else xs ++ y ∷ []) ys

abbrev pub merge_arrays : Value → List ℕ → Value
merge_arrays (array xs) ys = array (xs ++ ys)
merge_arrays _ ys = array ys

abbrev pub merge_sets : Value → List ℕ → Value
merge_sets (set_of xs) ys = set_of (union xs ys)
merge_sets t ys = if is_plain_object t then object (own_entries t) else set_of ys

-- A map with the merged entries, where the target is a map; an object, where it is another one.
abbrev pub map_entries : Value → Entries
map_entries (map_of es) = es
map_entries _ = no_entries

abbrev pub merged_map : Value → Entries → Entries → Value
merged_map (map_of es) m fs = map_of m
merged_map t m fs = if is_plain_object t then object (own_entries t) else map_of fs

abbrev pub or_undefined : Option Value → Value
or_undefined none = undefined_value
or_undefined (some v) = v

-- The value of a key that the target has, or has not, where the two values merge to `m`.
abbrev pub chosen : Option Value → Value → Value → Value
chosen none v m = v
chosen (some t) v m = if is_mergeable t v then m else v

unfoldable mutual
  pub deep_merge : Value → Value → Value
  deep_merge t undefined_value = undefined_value
  deep_merge t null_value = null_value
  deep_merge t (primitive n) = primitive n
  deep_merge t (array ys) = merge_arrays t ys
  deep_merge t (set_of ys) = merge_sets t ys
  deep_merge t (map_of fs) =
      let m = merge_entries (map_entries t) (map_entries t) fs in merged_map t m fs
  deep_merge t (object fs) =
      let m = merge_entries (own_entries t) (own_entries t) fs in
      if is_plain_object t then object m else object fs

  -- The loop over the source's entries, from `result` on.
  pub merge_entries : Entries → Entries → Entries → Entries
  merge_entries result target no_entries = result
  merge_entries result target (entry k v es) =
      let m = deep_merge (or_undefined (get_entry k target)) v in
      merge_entries (set_entry k (chosen (get_entry k target) v m) result) target es
