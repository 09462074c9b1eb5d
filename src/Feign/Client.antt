-- ===== src/Feign/Client.antt =====
-- packages/feign/src/feign: feign-feature.decoration.ts (`decorateFetch`) and
-- feign-fetcher.registry.ts. A fetcher runs in a world `W`; what it answers, an error included, is
-- an `A`.
pub mod Registering
pub mod Bodies
use nestplatform.Base.{
  ℕ, zero, suc, String, Option, none, some, Bool, true, false, List, [], ◌∷◌, str_eq, if◌then◌else◌,
}
use nestplatform.Feign.Routes.{Text, final_path}
use nestplatform.Feign.Objects.{Arg, merge_by_indexes}

pub data FeignMethod : Type 0 where
  get post put patch delete : FeignMethod

pub record FeignMethodOptions : Type 0 where
  pub path : Text
  pub method : FeignMethod

pub record FeignClientOptions : Type 0 where
  pub name : String
  pub url : Option Text
  pub path : Option Text

pub record FeignFetcherMethodOptions (V : Type 0) : Type 0 where
  pub method : FeignMethod
  pub params : List (String × V)
  pub queries : List (String × V)
  pub headers : List (String × V)
  pub body : Option (List (String × V))
  pub base_url : Option Text
  pub base_path : Option Text

-- The indexes that the parameter decorators left for a method.
pub record ParameterMetadata : Type 0 where
  pub params_idx : Option (List ℕ)
  pub queries_idx : Option (List ℕ)
  pub headers_idx : Option (List ℕ)
  pub body_idx : Option (List ℕ)

abbrev pub or_empty : Option (List ℕ) → List ℕ
or_empty none = []
or_empty (some is) = is

module _ {V : Type 0} (index_key : ℕ → String) where
  -- `if (idx.length) … = this.mergeByIndexes(idx, args)`, from `{}`.
  abbrev pub merged_args : List ℕ → List (Arg V) → List (String × V)
  merged_args [] args = []
  merged_args (i ∷ is) args = merge_by_indexes index_key (i ∷ is) args

  -- The body: there is one if there is exactly one index.
  unfoldable pub request_body : List ℕ → List (Arg V) → Option (List (String × V))
  unfolding merge_by_indexes
  request_body [] args = none
  request_body (i ∷ []) args = some (merge_by_indexes index_key (i ∷ []) args)
  request_body (i ∷ j ∷ is) args = none

  unfoldable pub fetch_options :
      FeignClientOptions
      → FeignMethodOptions
      → ParameterMetadata
      → List (Arg V)
      → FeignFetcherMethodOptions V
  unfolding request_body
  fetch_options client o idx args = record {
    method = o.method;
    params = merged_args (or_empty idx.params_idx) args;
    queries = merged_args (or_empty idx.queries_idx) args;
    headers = merged_args (or_empty idx.headers_idx) args;
    body = request_body (or_empty idx.body_idx) args;
    base_url = client.url;
    base_path = client.path;
  }

abbrev pub FeignFetcherMethod : Type 0 → Type 0 → Type 0 → Type 0
FeignFetcherMethod V W A = Text → FeignFetcherMethodOptions V → W → W × A

-- What a client's method comes to: the fetcher's answer, or the error of a missing fetcher.
pub data Fetched (A : Type 0) : Type 0 where
  answered : A → Fetched A
  not_registered : String → Fetched A

-- `FeignFetcherRegistry.fetchers`
module _ {F : Type 0} where
  unfoldable pub add : String → F → List (String × F) → List (String × F)
  add name f [] = (name, f) ∷ []
  add name f ((n, g) ∷ m) =
      let rest = add name f m in if str_eq n name then (n, f) ∷ m else (n, g) ∷ rest

  unfoldable pub registered : String → List (String × F) → Option F
  registered name [] = none
  registered name ((n, g) ∷ m) = if str_eq n name then some g else registered name m

  -- `get`; `none` where it throws. `fallback` is the default fetcher.
  abbrev pub found : Option F → Bool → F → Option F
  found (some f) use_fallback fallback = some f
  found none true fallback = some fallback
  found none false fallback = none

  unfoldable pub get_fetcher : F → String → Bool → List (String × F) → Option F
  unfolding registered
  get_fetcher fallback name use_fallback m = found (registered name m) use_fallback fallback

abbrev pub fetched : {W A : Type 0} → W × A → W × Fetched A
fetched (w, a) = (w, answered a)

module _ {V W A : Type 0} where
  abbrev pub call_fetcher :
      Option (FeignFetcherMethod V W A)
      → String
      → Text
      → FeignFetcherMethodOptions V
      → W
      → W × Fetched A
  call_fetcher none name path o w = (w, not_registered name)
  call_fetcher (some f) name path o w = fetched (f path o w)

  -- The method that `decorateFetch` puts in place, with the fetchers as they are when it is called.
  unfoldable pub decorate_fetch :
      (ℕ → String)
      → FeignFetcherMethod V W A
      → FeignClientOptions
      → FeignMethodOptions
      → ParameterMetadata
      → List (String × FeignFetcherMethod V W A)
      → List (Arg V)
      → W
      → W × Fetched A
  unfolding get_fetcher final_path fetch_options
  decorate_fetch index_key fallback client o idx m args w =
      call_fetcher (get_fetcher fallback client.name true m) client.name
        (final_path client.path o.path) (fetch_options index_key client o idx args) w
