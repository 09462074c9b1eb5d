-- ===== src/Cacheable/Metadata.antt =====
-- packages/cacheable/src/decorators and cacheable-metadata.accessor.ts: what the decorators store on
-- a method and what the accessor makes of it. `ttl` values count as given unless they are `undefined`,
-- zero or the empty string.
pub mod RoundTrips
use nestplatform.Base.{
  ℕ, zero, suc, String, Option, none, some, Bool, true, false, not, str_eq, if◌then◌else◌,
}
use nestplatform.Cacheable.Keys.{KeyBuilder, is_given}

pub data CacheTtl : Type 0 where
  millis : ℕ → CacheTtl
  text : String → CacheTtl

abbrev pub ttl_given : Option CacheTtl → Bool
ttl_given none = false
ttl_given (some (millis zero)) = false
ttl_given (some (millis (suc n))) = true
ttl_given (some (text s)) = not (str_eq s "")

pub record CacheableOptions (Args : Type 0) : Type 0 where
  pub key : Option (KeyBuilder Args)
  pub namespace : Option (KeyBuilder Args)
  pub ttl : Option CacheTtl

pub record CacheEvictOptions (Args : Type 0) : Type 0 where
  pub key : Option (KeyBuilder Args)
  pub namespace : Option (KeyBuilder Args)

-- What a decorator stored for evictions: an object of options, or the key alone.
pub data EvictMetadata (Args : Type 0) : Type 0 where
  options : CacheEvictOptions Args → EvictMetadata Args
  key_alone : Option (KeyBuilder Args) → EvictMetadata Args

pub record Metadata (Args : Type 0) : Type 0 where
  pub cacheable : Bool
  pub cache_put : Bool
  pub cache_evict : Option (EvictMetadata Args)
  pub cache_key : Option (KeyBuilder Args)
  pub cache_namespace : Option (KeyBuilder Args)
  pub cache_ttl : Option CacheTtl

abbrev pub no_metadata : {Args : Type 0} → Metadata Args
no_metadata = record {
  cacheable = false;
  cache_put = false;
  cache_evict = none;
  cache_key = none;
  cache_namespace = none;
  cache_ttl = none;
}

module _ {Args : Type 0} where
  -- What a decorator sets, if the option is given.
  abbrev pub set_options : CacheableOptions Args → Metadata Args → Metadata Args
  set_options o m = record m {
    cache_key = if is_given o.key then o.key else m.cache_key;
    cache_namespace = if is_given o.namespace then o.namespace else m.cache_namespace;
    cache_ttl = if ttl_given o.ttl then o.ttl else m.cache_ttl;
  }

  unfoldable pub decorate_cacheable : CacheableOptions Args → Metadata Args → Metadata Args
  decorate_cacheable o m = record (set_options o m) { cacheable = true }

  unfoldable pub decorate_cache_put : CacheableOptions Args → Metadata Args → Metadata Args
  decorate_cache_put o m = record (set_options o m) { cache_put = true }

  unfoldable pub decorate_cache_key : String → Metadata Args → Metadata Args
  decorate_cache_key k m = record m {
    cache_key = some (KeyBuilder.static (nestplatform.Cacheable.Keys.Keys.one k));
  }

  -- `@CacheEvict` stores the key where the accessor looks for options.
  unfoldable pub decorate_cache_evict : CacheEvictOptions Args → Metadata Args → Metadata Args
  decorate_cache_evict o m = record m {
    cache_evict = some (EvictMetadata.key_alone o.key);
    cache_namespace = if is_given o.namespace then o.namespace else m.cache_namespace;
  }

  abbrev pub assembled : Metadata Args → CacheableOptions Args
  assembled m = record { key = m.cache_key; namespace = m.cache_namespace; ttl = m.cache_ttl }

  unfoldable pub get_all_cacheable_metadata : Metadata Args → Option (CacheableOptions Args)
  get_all_cacheable_metadata m = if m.cacheable then some (assembled m) else none

  unfoldable pub get_all_cache_put_metadata : Metadata Args → Option (CacheableOptions Args)
  get_all_cache_put_metadata m = if m.cache_put then some (assembled m) else none

  abbrev pub or_metadata :
      Option (KeyBuilder Args) → Option (KeyBuilder Args) → Option (KeyBuilder Args)
  or_metadata o m = if is_given o then o else m

  -- A key alone has neither a `namespace` nor a `key` field; where it is not given, there is no
  -- eviction.
  abbrev pub evict_options :
      Metadata Args → Option (EvictMetadata Args) → Option (CacheEvictOptions Args)
  evict_options m none = none
  evict_options m (some (options o)) = some (record {
    key = or_metadata o.key m.cache_key;
    namespace = or_metadata o.namespace m.cache_namespace;
  })
  evict_options m (some (key_alone k)) =
      if is_given k
      then some (record { key = m.cache_key; namespace = m.cache_namespace })
      else none

  unfoldable pub get_all_cache_evict_metadata : Metadata Args → Option (CacheEvictOptions Args)
  get_all_cache_evict_metadata m = evict_options m m.cache_evict
