-- ===== src/Products/Deleting.antt =====
-- A product that is deleted stays in the cache: `@CacheEvict` keeps its key where nothing reads it.
use nestplatform.Base.{
  ◌≡◌, refl, ap, ◌∙◌, String, Option, none, some, false, List, [], ◌∷◌, str_append, str_eq_refl,
  if◌then◌else◌, Option-cases, inl, inr, arith,
}
use nestplatform.Cacheable.Keys.{generate_composed_key, own_keys, extract}
use nestplatform.Cacheable.Metadata.{
  decorate_cacheable, decorate_cache_evict, get_all_cacheable_metadata, get_all_cache_put_metadata,
  get_all_cache_evict_metadata,
}
use nestplatform.Cacheable.Wrappers.{
  StoreTtl, fulfilled, kept, delete_all, keys_to_delete, wrap_method_with_cache_evict,
  wrap_with_cacheable,
}
use nestplatform.Cacheable.Explorer.{on_method}
use nestplatform.Products.{
  Product, ProductValue, undefined_value, one_product, find_product, put_product, without_product,
  CacheEnvironment, beside, setup, installed_update_product, installed_get_product,
  installed_delete_product, installed_clear_all_products_cache, installed_get_all_products,
}
use nestplatform.Products.Names.{
  in_inventory, product_key, deletion_key_differs, clearing_key_differs,
}
use nestplatform.Products.Coherence.{
  installed_get_product_lem, installed_update_product_lem, minute, find_product-put_product,
}

find_product-without_product :
    (id : String) (ps : List Product) → find_product id (without_product id ps) ≡ none
find_product-without_product id [] = refl
find_product-without_product id (p ∷ ps) = ground (arith, find_product-without_product id ps)

module _ {Error : Type 0} (env : CacheEnvironment Error) where
  open env use {cache, args_hash}
  open cache use {State, get, set, del, is_nullish}

  -- The key of the deletion, from the hash of its arguments.
  abbrev deletion_key : String → String
  deletion_key h = in_inventory (str_append "deleteProduct" (str_append "@" h))

  -- The cache after a deletion of that key.
  abbrev evicted_by : Option String → List Product × State → List Product × State
  evicted_by none x = x
  evicted_by (some h) x = kept (setup env String) x (beside cache x.0 (del (deletion_key h) x.1))

  installed_delete_product_hashed :
      (id : String) (x : List Product × State) (o : Option String)
      → args_hash id ≡ o
      → installed_delete_product env id x
        ≡ ((without_product id (evicted_by o x).0, (evicted_by o x).1), fulfilled undefined_value)
  unfolding installed_delete_product on_method decorate_cache_evict get_all_cacheable_metadata
      get_all_cache_put_metadata get_all_cache_evict_metadata wrap_method_with_cache_evict
      generate_composed_key own_keys extract keys_to_delete delete_all
  installed_delete_product_hashed id x none e = rw e refl
  installed_delete_product_hashed id x (some h) e = rw e refl

  -- An eviction leaves the products, and what is cached under a product's name.
  evicted_keeps :
      (id : String) (x : List Product × State) (o : Option String)
      → ((evicted_by o x).0 ≡ x.0)
        × (get (product_key id) (evicted_by o x).1 ≡ get (product_key id) x.1)
  evicted_keeps id x none = (refl, refl)
  evicted_keeps id x (some h) = elim (Option-cases (del (deletion_key h) x.1)) [
    | inl failed ↦ rw failed (refl, refl)
    | inr (t, done) ↦
        let read = cache.get-del (deletion_key h) (product_key id) x.1 t done in
        rw done (
          refl,
          read
              ∙ ap (λ b. if b then some cache.missing else get (product_key id) x.1)
                  (deletion_key_differs h id),
        )
  ]

  -- Where a product is cached, its deletion takes it out of the products, and a read of it answers
  -- with the deleted product still.
  cached_product_served :
      (p : Product) (x : List Product × State)
      → get (product_key p.id) x.1 ≡ some (one_product p)
      → (s' : State) × (installed_delete_product env p.id x
          ≡ ((without_product p.id x.0, s'), fulfilled undefined_value))
        × (find_product p.id (without_product p.id x.0) ≡ none)
        × (installed_get_product env p.id (without_product p.id x.0, s')
            ≡ ((without_product p.id x.0, s'), fulfilled (one_product p)))
  cached_product_served p x cached =
      let o = args_hash p.id in
      let (products, same) = evicted_keeps p.id x o in
      let y : List Product × State = (without_product p.id x.0, (evicted_by o x).1) in
      (
        (evicted_by o x).1,
        installed_delete_product_hashed p.id x o refl
            ∙ ap (λ ps. ((without_product p.id ps, (evicted_by o x).1), fulfilled undefined_value))
                products,
        find_product-without_product p.id x.0,
        rw (installed_get_product_lem env p.id y, same ∙ cached, env.product_not_nullish p) refl,
      )

  -- Once a product has been updated, its deletion takes it out of the products, but a read of it
  -- answers with the deleted product still, if the cache accepts what is stored.
  pub deleted_product_served :
      (p : Product) (x : List Product × State)
      → ((k : String) (v : ProductValue) (ttl : Option StoreTtl) (s : State)
          → (s' : State) × (set k v ttl s ≡ some s'))
      → let y = (installed_update_product env p x).0 in
        let z = (installed_delete_product env p.id y).0 in
        (find_product p.id y.0 ≡ some p)
        × (find_product p.id z.0 ≡ none)
        × (installed_get_product env p.id z ≡ (z, fulfilled (one_product p)))
  deleted_product_served p x accepts =
      let write = accepts (product_key p.id) (one_product p) (minute env) x.1 in
      let y : List Product × State = (put_product p x.0, write.0) in
      let updated : (installed_update_product env p x).0 ≡ y =
        rw (installed_update_product_lem env p x, write.1) refl in
      let cached : get (product_key p.id) write.0 ≡ some (one_product p) =
        cache.get-set (product_key p.id) (product_key p.id) (one_product p) (minute env) x.1 write.0
          write.1
        ∙ ap (λ b. if b then some (one_product p) else get (product_key p.id) x.1)
            (str_eq_refl (product_key p.id)) in
      let (t, deleted, gone, served) = cached_product_served p y cached in
      rw (updated, deleted)
        (
          find_product-put_product p.id p x.0
              ∙ ap (λ b. if b then some p else find_product p.id x.0) (str_eq_refl p.id),
          gone,
          served,
        )

  abbrev clearing_key : String → String
  clearing_key h = str_append "clearAllProductsCache" (str_append "@" h)

  abbrev cleared_by : Option String → List Product × State → List Product × State
  cleared_by none x = x
  cleared_by (some h) x = kept (setup env Unit) x (beside cache x.0 (del (clearing_key h) x.1))

  installed_clear_all_products_cache_hashed :
      (x : List Product × State) (o : Option String)
      → args_hash tt ≡ o
      → installed_clear_all_products_cache env tt x ≡ (cleared_by o x, fulfilled undefined_value)
  unfolding installed_clear_all_products_cache on_method decorate_cache_evict
      get_all_cacheable_metadata get_all_cache_put_metadata get_all_cache_evict_metadata
      wrap_method_with_cache_evict generate_composed_key own_keys extract keys_to_delete delete_all
  installed_clear_all_products_cache_hashed x none e = rw e refl
  installed_clear_all_products_cache_hashed x (some h) e = rw e refl

  cleared_keeps :
      (x : List Product × State) (o : Option String)
      → get "all-products" (cleared_by o x).1 ≡ get "all-products" x.1
  cleared_keeps x none = refl
  cleared_keeps x (some h) = elim (Option-cases (del (clearing_key h) x.1)) [
    | inl failed ↦ rw failed refl
    | inr (t, done) ↦
        let read = cache.get-del (clearing_key h) "all-products" x.1 t done in
        rw done (
          read
          ∙ ap (λ b. if b then some cache.missing else get "all-products" x.1)
              (clearing_key_differs h))
  ]

  -- What the cache has under the name of all products is there after a clearing of it, and is what
  -- the next read answers with.
  pub cleared_products_served :
      (x : List Product × State) (v : ProductValue)
      → get "all-products" x.1 ≡ some v
      → is_nullish v ≡ false
      → let y = (installed_clear_all_products_cache env tt x).0 in
        installed_get_all_products env tt y ≡ (y, fulfilled v)
  unfolding installed_get_all_products on_method decorate_cacheable get_all_cacheable_metadata
      get_all_cache_put_metadata get_all_cache_evict_metadata wrap_with_cacheable
      generate_composed_key own_keys extract
  cleared_products_served x v cached real =
      let o = args_hash {Args = Unit} tt in
      rw (installed_clear_all_products_cache_hashed x o refl, cleared_keeps x o ∙ cached, real) refl
