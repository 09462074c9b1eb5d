-- ===== src/Feign/Declaring/Examples.antt =====
-- The theorems on declared clients at concrete inputs: metadata in a table, and a method with two
-- parameters that are decorated with `@Queries()`.
use nestplatform.Base.{
  ℕ, ◌≡◌, refl, String, Option, none, some, ◌&&◌, List, [], ◌∷◌, ◌==◌, ==_refl, sym, str_eq,
  str_eq_iff, Bool-cases, inl, inr, if◌then◌else◌,
}
use nestplatform.Feign.Objects.{Arg, plain, get_property}
use nestplatform.Feign.Client.{
  get, FeignMethodOptions, FeignClientOptions, not_registered, fetch_options,
}
use nestplatform.Feign.Declaring.{
  ParameterKind, queries, same_kind, Reflection, decorate_all, parameter_metadata, Member,
  no_function, function, ClientMethod, method_decorator,
}
use nestplatform.Feign.Declaring.Leftmost.{request_leftmost}
use nestplatform.Feign.Declaring.Exploring.{Named}

abbrev Table : Type 0
Table = ParameterKind → ℕ → String → Option (List ℕ)

abbrev defined : ParameterKind → List ℕ → ℕ → String → Table → Table
defined j is target q s k t p =
    if (target == t) && (same_kind j k && str_eq q p) then some is else s k t p

defined_there :
    (k j : ParameterKind) (is : List ℕ) (target : ℕ) (p q : String) (s : Table)
    → defined j is target q s k target p
      ≡ (if same_kind j k && str_eq q p then some is else s k target p)
defined_there k j is target p q s = rw (==_refl target) refl

abbrev table : Reflection
table = record {
  Store = Table;
  get_own_metadata = λ k target p s. s k target p;
  get_metadata = λ k target p s. s k target p;
  define_metadata = defined;
  get_own-define = defined_there;
  get-define = defined_there;
}

abbrev empty_table : Table
empty_table k target p = none

abbrev index_key : ℕ → String
index_key i = "0"

abbrev users : FeignClientOptions
users = record { name = "users"; url = none; path = none }

abbrev get_users : FeignMethodOptions
get_users = method_decorator get (47 ∷ [])

abbrev two_queries : List (List ParameterKind)
two_queries = (queries ∷ []) ∷ (queries ∷ []) ∷ []

abbrev two_args : List (Arg ℕ)
two_args = plain (("page", 1) ∷ []) ∷ plain (("page", 2) ∷ ("size", 9) ∷ []) ∷ []

request_leftmost_example :
    let f =
      fetch_options index_key users get_users
        (parameter_metadata table 3 "find" (decorate_all table two_queries 3 "find" 0 empty_table))
        two_args in
    (get_property "page" f.params ≡ none)
    × (get_property "page" f.queries ≡ some 1)
    × (get_property "page" f.headers ≡ none)
request_leftmost_example =
    request_leftmost table 3 "find" index_key users get_users two_queries two_args empty_table
      "page" (λ k. (refl, refl))

abbrev unmade : ClientMethod ℕ ℕ ℕ
unmade fetchers args w = (w, not_registered "users")

abbrev client_members : String → Member (ClientMethod ℕ ℕ ℕ)
client_members n = if str_eq n "find" then function "find" (some get_users) unmade else no_function

client_Named : (m : String) → Named m (client_members m)
client_Named m = elim (Bool-cases (str_eq m "find")) [
  | inl same ↦ rw same (sym ((str_eq_iff m "find").0 same))
  | inr other ↦ rw other tt
]
