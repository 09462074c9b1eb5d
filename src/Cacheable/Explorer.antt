-- ===== src/Cacheable/Explorer.antt =====
-- packages/cacheable/src/cacheable-metadata.explorer.ts: what a decorated method is replaced by. Each
-- wrapper is built on the method as it was declared and is stored under its name.
use nestplatform.Base.{◌≡◌, refl, String, Option, none, some, true}
use nestplatform.Cacheable.Keys.{is_given}
use nestplatform.Cacheable.Metadata.RoundTrips.{cacheable_and_put_share}
use nestplatform.Cacheable.Metadata.{
  CacheableOptions, CacheEvictOptions, Metadata, ttl_given, no_metadata, decorate_cacheable,
  decorate_cache_put, get_all_cacheable_metadata, get_all_cache_put_metadata,
  get_all_cache_evict_metadata,
}
use nestplatform.Cacheable.Wrappers.{
  Setup, Method, wrap_with_cacheable, wrap_method_with_cache_put, wrap_method_with_cache_evict,
}

module _ {Args Value Error : Type 0} (c : Setup Args Value Error) where
  abbrev pub replaced : {O : Type 0} → Option O → (O → Method c) → Method c → Method c
  replaced none wrap current = current
  replaced (some o) wrap current = wrap o

  unfoldable pub on_method : String → Metadata Args → Method c → Method c
  on_method name m method =
      replaced (get_all_cache_evict_metadata m) (λ o. wrap_method_with_cache_evict c name o method)
        (replaced (get_all_cache_put_metadata m) (λ o. wrap_method_with_cache_put c name o method)
          (replaced (get_all_cacheable_metadata m) (λ o. wrap_with_cacheable c name o method)
            method))

  -- A method with an eviction is replaced by the wrapper of the eviction alone: if it is also
  -- `@Cacheable` or `@CachePut`, its results are not cached.
  pub on_method_evict :
      (name : String) (m : Metadata Args) (method : Method c) (eo : CacheEvictOptions Args)
      → get_all_cache_evict_metadata m ≡ some eo
      → on_method name m method ≡ wrap_method_with_cache_evict c name eo method
  unfolding on_method
  on_method_evict name m method eo evict = rw evict refl

  -- A method that is both `@Cacheable` and `@CachePut`, with all options given, behaves by `@CachePut`
  -- alone: the cache is never read.
  pub on_method_put_only :
      (name : String) (o p : CacheableOptions Args) (method : Method c)
      → is_given p.key ≡ true
      → is_given p.namespace ≡ true
      → ttl_given p.ttl ≡ true
      → on_method name (decorate_cache_put p (decorate_cacheable o no_metadata)) method
        ≡ wrap_method_with_cache_put c name p method
  unfolding on_method get_all_cache_evict_metadata decorate_cacheable decorate_cache_put
  on_method_put_only name o p method k n t = rw ((cacheable_and_put_share o p k n t).1) refl
