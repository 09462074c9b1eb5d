-- ===== src/Cacheable/Metadata/RoundTrips.antt =====
-- What comes back from the decorators through the accessor.
use nestplatform.Base.{◌≡◌, refl, some, true}
use nestplatform.Cacheable.Keys.{is_given}
use nestplatform.Cacheable.Metadata.{
  ttl_given, CacheableOptions, CacheEvictOptions, Metadata, no_metadata, decorate_cacheable,
  decorate_cache_put, decorate_cache_evict, get_all_cacheable_metadata, get_all_cache_put_metadata,
  get_all_cache_evict_metadata,
}

module _ {Args : Type 0} where
  -- `@Cacheable` and `@CachePut` on one method, in this order of application: both read the options
  -- that were applied last, where those give a value, and the other's where they do not.
  pub cacheable_and_put_share :
      (o p : CacheableOptions Args)
      → is_given p.key ≡ true
      → is_given p.namespace ≡ true
      → ttl_given p.ttl ≡ true
      → (get_all_cacheable_metadata (decorate_cache_put p (decorate_cacheable o no_metadata))
          ≡ some p)
        × (get_all_cache_put_metadata (decorate_cache_put p (decorate_cacheable o no_metadata))
            ≡ some p)
  unfolding get_all_cacheable_metadata get_all_cache_put_metadata decorate_cacheable
      decorate_cache_put
  cacheable_and_put_share o p k n t = (rw (k, n, t) refl, rw (k, n, t) refl)

  -- The key given to `@CacheEvict` does not reach the wrapper: the options read back have the key of
  -- the method's other decorators, which is none if there are no others.
  pub evict_key_lost :
      (o : CacheEvictOptions Args) (m : Metadata Args)
      → is_given o.key ≡ true
      → is_given o.namespace ≡ true
      → get_all_cache_evict_metadata (decorate_cache_evict o m)
        ≡ some (record { key = m.cache_key; namespace = o.namespace })
  unfolding get_all_cache_evict_metadata decorate_cache_evict
  evict_key_lost o m k n = rw (k, n) refl
