-- ===== src/Feign/Configuration.antt =====
-- packages/feign/src/feign/modules/feign-client.module.ts: the fetcher that a configuration registers.
-- `serve` is `request` of a `FetchService` made with a configuration.
use nestplatform.Base.{ℕ, String, Option, none, some, List, []}
use nestplatform.Base.Int.{ℤ, pos}
use nestplatform.Feign.Routes.{Text}
use nestplatform.Feign.Client.{FeignFetcherMethod, add}

pub data Logging : Type 0 where
  summary full no_logging : Logging

pub record FetchConfig (V : Type 0) : Type 0 where
  pub base_url : Text
  pub default_headers : List (String × V)
  pub timeout_ms : ℕ
  pub retry_count : ℤ
  pub retry_delay_ms : ℕ
  pub logging : Logging

-- A fetcher in a configuration: a function, an object with a function `request`, or another value
-- that counts as true.
pub data ConfiguredFetcher (F : Type 0) : Type 0 where
  function with_request : F → ConfiguredFetcher F
  invalid_fetcher : ConfiguredFetcher F

pub record FeignClientConfig (V F : Type 0) : Type 0 where
  pub name : String
  pub fetcher : Option (ConfiguredFetcher F)
  pub url : Option Text
  pub default_headers : Option (List (String × V))
  pub timeout_ms : Option ℕ
  pub retry_count : Option ℤ
  pub retry_delay_ms : Option ℕ
  pub logging : Option Logging

abbrev pub or_given : {B : Type 0} → Option B → B → B
or_given none b = b
or_given (some a) b = a

abbrev pub normalize_fetcher : {F : Type 0} → ConfiguredFetcher F → Option F
normalize_fetcher (function f) = some f
normalize_fetcher (with_request f) = some f
normalize_fetcher invalid_fetcher = none

unfoldable pub build_fetch_config : {V F : Type 0} → FeignClientConfig V F → FetchConfig V
build_fetch_config c = record {
  base_url = or_given c.url [];
  default_headers = or_given c.default_headers [];
  timeout_ms = or_given c.timeout_ms 5000;
  retry_count = or_given c.retry_count (pos 0);
  retry_delay_ms = or_given c.retry_delay_ms 1000;
  logging = or_given c.logging summary;
}

module _ {V W A : Type 0} (serve : FetchConfig V → FeignFetcherMethod V W A) where
  unfoldable pub config_fetcher :
      FeignClientConfig V (FeignFetcherMethod V W A) → Option (FeignFetcherMethod V W A)
  unfolding build_fetch_config
  config_fetcher c = elim c.fetcher [
    | none ↦ some (serve (build_fetch_config c))
    | some f ↦ normalize_fetcher f
  ]

  unfoldable pub added :
      String
      → Option (FeignFetcherMethod V W A)
      → List (String × FeignFetcherMethod V W A)
      → Option (List (String × FeignFetcherMethod V W A))
  unfolding add
  added name none m = none
  added name (some f) m = some (add name f m)

  -- `register`; `none` where it throws.
  unfoldable pub register :
      FeignClientConfig V (FeignFetcherMethod V W A)
      → List (String × FeignFetcherMethod V W A)
      → Option (List (String × FeignFetcherMethod V W A))
  unfolding added config_fetcher
  register c m = added c.name (config_fetcher c) m
