-- ===== src/Cacheable/Keys.antt =====
-- packages/cacheable/src/cacheable.helpers.ts: the keys under which results are cached. The hash of
-- the serialized arguments is a parameter; it is `none` where serializing throws, as is what a key
-- builder returns where it throws. An index out of range reads as `undefined`.
use nestplatform.Base.{
  String, Option, none, some, Bool, true, false, not, List, [], ◌∷◌, map, str_eq, str_append,
  if◌then◌else◌,
}

pub data Keys : Type 0 where
  one : String → Keys
  many : List String → Keys

-- `KeyBuilder`: a value, or a function of the arguments.
pub data KeyBuilder (Args : Type 0) : Type 0 where
  static : Keys → KeyBuilder Args
  built : (Args → Option Keys) → KeyBuilder Args

abbrev pub listed : Keys → List String
listed (one k) = k ∷ []
listed (many ks) = ks

abbrev pub first : List String → String
first [] = "undefined"
first (k ∷ ks) = k

-- Whether an optional builder counts as true: the empty string and `undefined` do not.
abbrev pub is_given : {Args : Type 0} → Option (KeyBuilder Args) → Bool
is_given none = false
is_given (some (static (one k))) = not (str_eq k "")
is_given (some (static (many ks))) = true
is_given (some (built f)) = true

abbrev pub listed_result : Option Keys → Option (List String)
listed_result none = none
listed_result (some ks) = some (listed ks)

module _ {Args : Type 0} where
  unfoldable pub extract : Option (KeyBuilder Args) → Args → Option (List String)
  extract none args = none
  extract (some (static ks)) args = some (listed ks)
  extract (some (built f)) args = listed_result (f args)

  module _ (args_hash : Args → Option String) where
    abbrev pub hashed : String → Option String → Option (List String)
    hashed method_name none = none
    hashed method_name (some h) = some (str_append method_name (str_append "@" h) ∷ [])

    unfoldable pub own_keys : Option (KeyBuilder Args) → String → Args → Option (List String)
    unfolding extract
    own_keys key method_name args =
        if is_given key then extract key args else hashed method_name (args_hash args)

    abbrev pub prefixed : Option (List String) → List String → Option (List String)
    prefixed none ks = none
    prefixed (some ns) ks = some (map (λ k. str_append (first ns) (str_append ":" k)) ks)

    abbrev pub in_namespace :
        Option (KeyBuilder Args) → Args → Option (List String) → Option (List String)
    in_namespace namespace args none = none
    in_namespace namespace args (some ks) =
        if is_given namespace then prefixed (extract namespace args) ks else some ks

    unfoldable pub generate_composed_key :
        Option (KeyBuilder Args) → Option (KeyBuilder Args) → String → Args → Option (List String)
    unfolding own_keys
    generate_composed_key key namespace method_name args =
        in_namespace namespace args (own_keys key method_name args)
