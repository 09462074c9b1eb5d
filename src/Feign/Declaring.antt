-- ===== src/Feign/Declaring.antt =====
-- packages/feign/src/feign: the decorators, feign-metadata.accessor.ts and feign-metadata.explorer.ts.
-- The package reflect-metadata is a parameter with its laws; a target is a number.
pub mod Indexes
pub mod Leftmost
pub mod Exploring
mod Examples
use nestplatform.Base.{
  ℕ, suc, ◌≡◌, String, Option, none, some, Bool, true, false, ◌&&◌, List, [], ◌∷◌, ◌++◌, str_eq,
  if◌then◌else◌,
}
use nestplatform.Feign.Routes.{Text}
use nestplatform.Feign.Objects.{Arg}
use nestplatform.Feign.Client.{
  FeignMethod, get, post, put, patch, delete, FeignMethodOptions, FeignClientOptions,
  ParameterMetadata, FeignFetcherMethod, Fetched, or_empty, decorate_fetch,
}

-- The four metadata keys of parameters.
pub data ParameterKind : Type 0 where
  params queries body headers : ParameterKind

abbrev pub same_kind : ParameterKind → ParameterKind → Bool
same_kind params params = true
same_kind queries queries = true
same_kind body body = true
same_kind headers headers = true
same_kind _ _ = false

-- `Reflect` on the indexes of a method's parameters. `get` also looks along the prototypes. What is
-- defined is found on the same target, and hides nothing else there.
pub record Reflection : Type 1 where
  pub Store : Type 0
  pub get_own_metadata : ParameterKind → ℕ → String → Store → Option (List ℕ)
  pub get_metadata : ParameterKind → ℕ → String → Store → Option (List ℕ)
  pub define_metadata : ParameterKind → List ℕ → ℕ → String → Store → Store
  pub get_own-define :
      (k j : ParameterKind) (is : List ℕ) (target : ℕ) (p q : String) (s : Store)
      → get_own_metadata k target p (define_metadata j is target q s)
        ≡ (if same_kind j k && str_eq q p then some is else get_own_metadata k target p s)
  pub get-define :
      (k j : ParameterKind) (is : List ℕ) (target : ℕ) (p q : String) (s : Store)
      → get_metadata k target p (define_metadata j is target q s)
        ≡ (if same_kind j k && str_eq q p then some is else get_metadata k target p s)

module _ (r : Reflection) where
  open r use {Store, get_own_metadata, get_metadata, define_metadata}

  -- `Params`, `Queries`, `Body` and `Headers`; the constructor's parameters have no property key.
  unfoldable pub decorate_parameter : ParameterKind → ℕ → Option String → ℕ → Store → Store
  decorate_parameter k target none i s = s
  decorate_parameter k target (some p) i s =
      define_metadata k (or_empty (get_own_metadata k target p s) ++ i ∷ []) target p s

  -- The decorators of one parameter, and those of all from the one with index `i` on: the last one
  -- that is written is applied first.
  unfoldable pub decorate_one : List ParameterKind → ℕ → String → ℕ → Store → Store
  unfolding decorate_parameter
  decorate_one [] target p i s = s
  decorate_one (k ∷ ks) target p i s =
      decorate_parameter k target (some p) i (decorate_one ks target p i s)

  unfoldable pub decorate_all : List (List ParameterKind) → ℕ → String → ℕ → Store → Store
  unfolding decorate_one
  decorate_all [] target p i s = s
  decorate_all (ks ∷ rest) target p i s =
      decorate_one ks target p i (decorate_all rest target p (suc i) s)

  -- What `decorateFetch` asks the accessor for.
  unfoldable pub parameter_metadata : ℕ → String → Store → ParameterMetadata
  parameter_metadata target p s = record {
    params_idx = get_metadata params target p s;
    queries_idx = get_metadata queries target p s;
    headers_idx = get_metadata headers target p s;
    body_idx = get_metadata body target p s;
  }

-- `Get`, `Post`, `Put`, `Patch` and `Delete`: the metadata that they set on a method.
abbrev pub method_decorator : FeignMethod → Text → FeignMethodOptions
method_decorator m path = record { path = path; method = m }

-- What `instance[name]` can be: a function, with its `name` and its Feign metadata, or another value.
pub data Member (F : Type 0) : Type 0 where
  no_function : Member F
  function : String → Option FeignMethodOptions → F → Member F

-- `getAllMethodNames`: the scanner of the version of NestJS at hand has one of two methods, or
-- `scanFromPrototype`.
pub record MetadataScanner : Type 0 where
  pub get_all_method_names : Option (ℕ → List String)
  pub get_all_filtered_method_names : Option (ℕ → List String)
  pub scan_from_prototype : ℕ → List String

abbrev pub scanned :
    Option (ℕ → List String) → Option (ℕ → List String) → (ℕ → List String) → ℕ → List String
scanned none none scan target = scan target
scanned none (some filtered) scan target = filtered target
scanned (some all) filtered scan target = all target

unfoldable pub all_method_names : MetadataScanner → ℕ → List String
all_method_names scanner target =
    scanned scanner.get_all_method_names scanner.get_all_filtered_method_names
      scanner.scan_from_prototype target

-- A method that `decorateFetch` puts in place, over the fetchers as they are when it is called.
abbrev pub ClientMethod : Type 0 → Type 0 → Type 0 → Type 0
ClientMethod V W A = List (String × FeignFetcherMethod V W A) → List (Arg V) → W → W × Fetched A

module _ {F : Type 0} where
  abbrev pub set_member : String → F → (String → Member F) → String → Member F
  set_member name f instance_of n = if str_eq name n then function "" none f else instance_of n

  -- One round of the loop of `onProvider`: the method goes under its function's own name.
  abbrev pub explore_member :
      (String → FeignMethodOptions → F) → Member F → (String → Member F) → String → Member F
  explore_member decorate no_function instance_of = instance_of
  explore_member decorate (function name none f) instance_of = instance_of
  explore_member decorate (function name (some o) f) instance_of =
      set_member name (decorate name o) instance_of

  unfoldable pub explore_members :
      (String → FeignMethodOptions → F) → List String → (String → Member F) → String → Member F
  explore_members decorate [] instance_of = instance_of
  explore_members decorate (n ∷ ns) instance_of =
      explore_members decorate ns (explore_member decorate (instance_of n) instance_of)

module _ (r : Reflection) {V W A : Type 0} (index_key : ℕ → String)
    (fallback : FeignFetcherMethod V W A) where
  open r use {Store}

  abbrev pub decorated :
      FeignClientOptions → ℕ → Store → String → FeignMethodOptions → ClientMethod V W A
  decorated client target s name o =
      decorate_fetch index_key fallback client o (parameter_metadata r target name s)

  -- `onProvider`, with the client metadata of the provider's class, if it has any.
  unfoldable pub on_provider :
      MetadataScanner
      → Option FeignClientOptions
      → ℕ
      → Store
      → (String → Member (ClientMethod V W A))
      → String
      → Member (ClientMethod V W A)
  unfolding all_method_names explore_members parameter_metadata decorate_fetch
  on_provider scanner none target s instance_of = instance_of
  on_provider scanner (some client) target s instance_of =
      explore_members (decorated client target s) (all_method_names scanner target) instance_of
