-- ===== src/Feign/Examples.antt =====
-- Tests, and the theorems on declared clients at concrete inputs.
use nestplatform.Base.{
  ℕ, ◌+◌, ◌≡◌, refl, String, none, some, false, List, [], ◌∷◌, ◌++◌, if◌then◌else◌, ◌==◌,
}
use nestplatform.Feign.Routes.{Text, slash, is_empty, strip_leading, strip_trailing, final_path}
use nestplatform.Feign.Routes.Slashes.{starts_with_slash, ends_with_slash, final_path_slashes}
use nestplatform.Feign.Client.{
  get, FeignMethodOptions, FeignClientOptions, ParameterMetadata, FeignFetcherMethod, answered,
  fetch_options, add, decorate_fetch,
}
use nestplatform.Feign.Client.Registering.{register_then_call}
use nestplatform.Feign.Configuration.{
  FetchConfig, FeignClientConfig, build_fetch_config, config_fetcher, added, register,
}

-- Indexes 0 and 1 by name; the examples use no other.
abbrev index_key : ℕ → String
index_key i = if i == 0 then "0" else "1"

-- `/api/` and `//1`.
abbrev api : Text
api = slash ∷ 97 ∷ slash ∷ []

abbrev one_path : Text
one_path = slash ∷ slash ∷ 49 ∷ []

final_path_slashes_example :
    (rest : Text) × (final_path (some api) one_path ≡ slash ∷ rest)
    × (starts_with_slash rest ≡ false)
    × (ends_with_slash rest ≡ false)
    × (rest ≡ 97 ∷ slash ∷ 49 ∷ [])
    × (ends_with_slash (final_path (some api) one_path) ≡ is_empty rest)
unfolding strip_leading strip_trailing
final_path_slashes_example = final_path_slashes api one_path refl

abbrev counts : FeignFetcherMethod ℕ ℕ Text
counts path o calls = (calls + 1, path)

abbrev serves : FetchConfig ℕ → FeignFetcherMethod ℕ ℕ Text
serves c path o calls = (calls + 1, c.base_url ++ path)

abbrev users : FeignClientConfig ℕ (FeignFetcherMethod ℕ ℕ Text)
users = record {
  name = "users";
  fetcher = none;
  url = some (104 ∷ []);
  default_headers = none;
  timeout_ms = none;
  retry_count = none;
  retry_delay_ms = none;
  logging = none;
}

abbrev users_client : FeignClientOptions
users_client = record { name = "users"; url = none; path = some api }

abbrev get_one : FeignMethodOptions
get_one = record { path = one_path; method = get }

abbrev no_parameters : ParameterMetadata
no_parameters = record {
  params_idx = none;
  queries_idx = none;
  headers_idx = none;
  body_idx = none;
}

abbrev fetchers : List (String × FeignFetcherMethod ℕ ℕ Text)
fetchers = ("users", serves (build_fetch_config users)) ∷ []

register_then_call_example :
    (f : FeignFetcherMethod ℕ ℕ Text) × (some (serves (build_fetch_config users)) ≡ some f)
    × (decorate_fetch index_key counts users_client get_one no_parameters fetchers [] 0 ≡ (
      (f
          (final_path users_client.path get_one.path)
          (fetch_options index_key users_client get_one no_parameters [])
          0).0,
      answered
          (f
            (final_path users_client.path get_one.path)
            (fetch_options index_key users_client get_one no_parameters [])
            0).1,
    ))
unfolding register add added config_fetcher
register_then_call_example =
    register_then_call serves users [] fetchers index_key counts users_client get_one no_parameters
      [] 0 refl
