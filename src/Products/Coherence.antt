-- ===== src/Products/Coherence.antt =====
-- The product service and its cache: reads and updates through the cache answer as the methods
-- without it.
use nestplatform.Base.{
  ℕ, ◌≡◌, refl, ap, sym, ◌∙◌, String, Option, some, false, List, [], ◌∷◌, str_eq, str_eq_iff,
  str_eq_refl, if◌then◌else◌, Option-cases, Bool-cases, inl, inr, arith,
}
use nestplatform.Cacheable.Keys.{generate_composed_key, own_keys, extract}
use nestplatform.Cacheable.Metadata.{
  text, decorate_cacheable, decorate_cache_put, get_all_cacheable_metadata,
  get_all_cache_put_metadata, get_all_cache_evict_metadata,
}
use nestplatform.Cacheable.Wrappers.{
  StoreTtl, fulfilled, parse_cache_ttl, stored, cached_or, wrap_with_cacheable,
  wrap_method_with_cache_put,
}
use nestplatform.Cacheable.Explorer.{on_method}
use nestplatform.Products.{
  Product, ProductValue, one_product, find_product, found_value, put_product, CacheEnvironment,
  beside, setup, installed_get_product, installed_update_product,
}
use nestplatform.Products.Names.{product_key, product_key_eq}

-- A product that is put is found under its `id`, and no other product changes.
pub find_product-put_product :
    (j : String) (q : Product) (ps : List Product)
    → find_product j (put_product q ps) ≡ (if str_eq q.id j then some q else find_product j ps)
find_product-put_product j q [] = refl
find_product-put_product j q (p ∷ ps) = ground (
  arith,
  find_product-put_product j q ps,
  str_eq_iff p.id q.id,
  str_eq_iff p.id j,
  str_eq_iff q.id j,
)

value_of : {v w : ProductValue} → some v ≡ some w → w ≡ v
value_of {v} {w} h = cc

module _ {Error : Type 0} (env : CacheEnvironment Error) where
  open env use {cache, ms, v5, elapse, get-elapse}
  open cache use {State, get, set, is_nullish}

  abbrev pub minute : Option StoreTtl
  minute = parse_cache_ttl ms v5 (some (text "1m"))

  -- `getProduct` reads the cache under the product's name, or stores what it finds.
  pub installed_get_product_lem :
      (id : String) (x : List Product × State)
      → installed_get_product env id x
        ≡ cached_or (setup env String) (get (product_key id) x.1) x (
            stored (setup env String) (found_value (find_product id x.0)) x (
              beside cache x.0
                (set (product_key id) (found_value (find_product id x.0)) minute x.1)))
  unfolding installed_get_product on_method decorate_cacheable get_all_cacheable_metadata
      get_all_cache_put_metadata get_all_cache_evict_metadata wrap_with_cacheable
      generate_composed_key own_keys extract
  installed_get_product_lem id x = refl

  pub installed_update_product_lem :
      (p : Product) (x : List Product × State)
      → installed_update_product env p x
        ≡ stored
            (setup env Product)
            (one_product p)
            (put_product p x.0, x.1)
            (beside cache (put_product p x.0) (set (product_key p.id) (one_product p) minute x.1))
  unfolding installed_update_product on_method decorate_cache_put get_all_cacheable_metadata
      get_all_cache_put_metadata get_all_cache_evict_metadata wrap_method_with_cache_put
      generate_composed_key own_keys extract
  installed_update_product_lem p x = refl

  -- What the cache has under the name of a product is that product.
  abbrev pub Coherent : List Product × State → Type 0
  Coherent x =
      (id : String) (v : ProductValue)
      → get (product_key id) x.1 ≡ some v
      → is_nullish v ≡ false
      → v ≡ found_value (find_product id x.0)

  -- A value that is stored under the name of a product, if it is that product, keeps the rest true.
  stored-Coherent :
      (ps qs : List Product) (s s' : State) (id : String) (w : ProductValue)
      → Coherent (ps, s)
      → set (product_key id) w minute s ≡ some s'
      → w ≡ found_value (find_product id qs)
      → ((j : String) → str_eq id j ≡ false → find_product j qs ≡ find_product j ps)
      → Coherent (qs, s')
  stored-Coherent ps qs s s' id w coherent done own others j v got real =
      let read = cache.get-set (product_key id) (product_key j) w minute s s' done in
      elim (Bool-cases (str_eq id j)) [
        | inl same ↦
            let here : some w ≡ some v =
              sym (
                read
                ∙ ap (λ b. if b then some w else get (product_key j) s)
                    (product_key_eq id j ∙ same))
              ∙ got in
            let there : found_value (find_product id qs) ≡ found_value (find_product j qs) =
              ap (λ i. found_value (find_product i qs)) ((str_eq_iff id j).0 same) in
            value_of here ∙ own ∙ there
        | inr other ↦
            let before : get (product_key j) s ≡ some v =
              sym (
                read
                ∙ ap (λ b. if b then some w else get (product_key j) s)
                    (product_key_eq id j ∙ other))
              ∙ got in
            coherent j v before real ∙ ap found_value (sym (others j other))
      ]

  -- A read through the cache answers with the product that the service has.
  pub get_product_current :
      (id : String) (x : List Product × State)
      → ((k : String) (v : ProductValue) (ttl : Option StoreTtl) (s : State)
          → (s' : State) × (set k v ttl s ≡ some s'))
      → Coherent x
      → (s' : State) × (installed_get_product env id x
          ≡ ((x.0, s'), fulfilled (found_value (find_product id x.0))))
        × Coherent (x.0, s')
  get_product_current id x accepts coherent =
      let value = found_value (find_product id x.0) in
      let write = accepts (product_key id) value minute x.1 in
      let kept =
        stored-Coherent x.0 x.0 x.1 write.0 id value coherent write.1 refl (λ j apart. refl) in
      elim (Option-cases (get (product_key id) x.1)) [
        | inl failed ↦ (write.0, rw (installed_get_product_lem id x, failed, write.1) refl, kept)
        | inr (v, got) ↦ elim (Bool-cases (is_nullish v)) [
          | inl empty ↦
              (write.0, rw (installed_get_product_lem id x, got, empty, write.1) refl, kept)
          | inr real ↦ (
            x.1,
            rw (installed_get_product_lem id x, got, real)
                (ap (λ u. (x, fulfilled u)) (coherent id v got real)),
            coherent,
          )
        ]
      ]

  -- An update through the cache changes the product, and what is cached with it.
  pub update_product_current :
      (p : Product) (x : List Product × State)
      → ((k : String) (v : ProductValue) (ttl : Option StoreTtl) (s : State)
          → (s' : State) × (set k v ttl s ≡ some s'))
      → Coherent x
      → (s' : State) × (installed_update_product env p x
          ≡ ((put_product p x.0, s'), fulfilled (one_product p)))
        × Coherent (put_product p x.0, s')
  update_product_current p x accepts coherent =
      let write = accepts (product_key p.id) (one_product p) minute x.1 in
      let own : one_product p ≡ found_value (find_product p.id (put_product p x.0)) =
        rw (find_product-put_product p.id p x.0, str_eq_refl p.id) refl in
      (
        write.0,
        rw (installed_update_product_lem p x, write.1) refl,
        stored-Coherent x.0 (put_product p x.0) x.1 write.0 p.id (one_product p) coherent write.1
            own (λ j apart. rw (find_product-put_product j p x.0, apart) refl),
      )

  pub elapse-Coherent :
      (n : ℕ) (x : List Product × State) → Coherent x → Coherent (x.0, elapse n x.1)
  elapse-Coherent n x coherent id v got real =
      coherent id v (get-elapse n (product_key id) x.1 v got real) real
