-- ===== src/Cacheable/Wrappers/Memo.antt =====
-- The wrappers together: what is cached is read, and what is evicted is computed again.
use nestplatform.Base.{
  ◌≡◌, refl, ap, sym, ◌∙◌, String, Option, some, Bool, true, false, ◌||◌, List, [], ◌∷◌, str_eq,
  str_eq_iff, str_eq_refl, if◌then◌else◌, arith, Bool-cases, Option-cases, inl, inr,
}
use nestplatform.Cacheable.Keys.{first, generate_composed_key}
use nestplatform.Cacheable.Metadata.{CacheTtl, CacheableOptions, CacheEvictOptions}
use nestplatform.Cacheable.Wrappers.{
  Setup, Settled, fulfilled, rejected, parse_cache_ttl, Method, store_result, cached_or,
  cacheable_with, wrap_with_cacheable, put_with, wrap_method_with_cache_put, delete_all,
  keys_to_delete, option_keys, wrap_method_with_cache_evict,
}

abbrev pub mem_str : String → List String → Bool
mem_str j [] = false
mem_str j (k ∷ ks) = str_eq k j || mem_str j ks

module _ {Args Value Error : Type 0} (c : Setup Args Value Error) where
  open c use {store, args_hash, ms, v5, key_error, set_error}
  open store use {State, get, set, del, is_nullish, missing}

  -- A result that was stored is what the cache holds.
  store_result_holds :
      (k : String) (ttl : Option CacheTtl) (x : State × Settled Value Error) (s' : State)
      (v : Value)
      → store_result c k ttl x ≡ (s', fulfilled v)
      → get k s' ≡ some v
  store_result_holds k ttl (s, rejected e) s' v h = cc
  store_result_holds k ttl (s, fulfilled u) s' v h =
      elim (Option-cases (set k u (parse_cache_ttl ms v5 ttl) s)) [
        | inl failed ↦ ground arith
        | inr (t, done) ↦
            ground (arith, store.get-set k k u (parse_cache_ttl ms v5 ttl) s t done, str_eq_refl k)
      ]

  cacheable_with_hit :
      (ks : List String) (ttl : Option CacheTtl) (method : Method c) (args : Args) (s : State)
      (v : Value)
      → get (first ks) s ≡ some v
      → is_nullish v ≡ false
      → cacheable_with c (some ks) ttl method args s ≡ (s, fulfilled v)
  cacheable_with_hit ks ttl method args s v found real = rw (found, real) refl

  cacheable_with_holds :
      (ks : List String) (ttl : Option CacheTtl) (method : Method c) (args : Args) (s s' : State)
      (v : Value)
      → is_nullish v ≡ false
      → cacheable_with c (some ks) ttl method args s ≡ (s', fulfilled v)
      → get (first ks) s' ≡ some v
  cacheable_with_holds ks ttl method args s s' v real h = elim (Option-cases (get (first ks) s)) [
    | inl failed ↦
        store_result_holds (first ks) ttl (method args s) s' v (
          sym (ap (λ o. cached_or c o s (store_result c (first ks) ttl (method args s))) failed)
          ∙ h)
    | inr (u, found) ↦ elim (Bool-cases (is_nullish u)) [
      | inl empty ↦
          let computed = store_result c (first ks) ttl (method args s) in
          store_result_holds (first ks) ttl (method args s) s' v (
            sym (
              ap (λ q. cached_or c q s computed) found
              ∙ ap (λ b. if b then computed else (s, fulfilled u)) empty)
            ∙ h)
      | inr full ↦ ground arith
    ]
  ]

  abbrev pub keys_of : String → CacheableOptions Args → Args → Option (List String)
  keys_of name o args = generate_composed_key args_hash o.key o.namespace name args

  -- What a cached call returned, and is neither `undefined` nor `null`, every later call with the
  -- same composed key returns, on any arguments and of any cached method, without running the method
  -- and without a change of the cache, as long as the cache is as the call left it.
  pub cacheable_remembers :
      (name name' : String) (o o' : CacheableOptions Args) (method method' : Method c)
      (args args' : Args) (s s' : State) (v : Value)
      → wrap_with_cacheable c name o method args s ≡ (s', fulfilled v)
      → is_nullish v ≡ false
      → keys_of name' o' args' ≡ keys_of name o args
      → wrap_with_cacheable c name' o' method' args' s' ≡ (s', fulfilled v)
  unfolding wrap_with_cacheable
  cacheable_remembers name name' o o' method method' args args' s s' v h real same =
      elim (Option-cases (keys_of name o args)) [
        | inl throws ↦
            let e : (s, rejected key_error) ≡ (s', fulfilled v) =
              sym (ap (λ q. cacheable_with c q o.ttl method args s) throws) ∙ h in
            cc
        | inr (ks, composed) ↦ rw (same ∙ composed) (
            cacheable_with_hit ks o'.ttl method' args' s' v
              (cacheable_with_holds ks o.ttl method args s s' v real
                (sym (ap (λ q. cacheable_with c q o.ttl method args s) composed) ∙ h))
              real)
      ]

  -- After a call of a `@CachePut` method that returned a value that is neither `undefined` nor `null`,
  -- whatever the cache held before, a later cached call with the same composed key returns that value
  -- and does not run its method, as long as the cache is as the call left it.
  pub cacheable_after_put :
      (name name' : String) (o o' : CacheableOptions Args) (method method' : Method c)
      (args args' : Args) (s s' : State) (v : Value)
      → wrap_method_with_cache_put c name o method args s ≡ (s', fulfilled v)
      → is_nullish v ≡ false
      → keys_of name' o' args' ≡ keys_of name o args
      → wrap_with_cacheable c name' o' method' args' s' ≡ (s', fulfilled v)
  unfolding wrap_with_cacheable wrap_method_with_cache_put
  cacheable_after_put name name' o o' method method' args args' s s' v h real same =
      elim (Option-cases (keys_of name o args)) [
        | inl throws ↦
            let e : (s, rejected key_error) ≡ (s', fulfilled v) =
              sym (ap (λ q. put_with c q o.ttl method args s) throws) ∙ h in
            cc
        | inr (ks, composed) ↦ rw (same ∙ composed) (
            cacheable_with_hit ks o'.ttl method' args' s' v
              (store_result_holds (first ks) o.ttl (method args s) s' v
                (sym (ap (λ q. put_with c q o.ttl method args s) composed) ∙ h))
              real)
      ]

  get-delete_all :
      (j : String) (ks : List String) (s : State)
      → ((k : String) (t : State) → (t' : State) × (del k t ≡ some t'))
      → get j (delete_all c ks s) ≡ (if mem_str j ks then some missing else get j s)
  unfolding delete_all
  get-delete_all j [] s accepts = refl
  get-delete_all j (k ∷ ks) s accepts =
      let (t, done) = accepts k s in
      rw (done, delete_all)
        (ground (arith, str_eq_iff k j, store.get-del k j s t done, get-delete_all j ks t accepts))

  -- When the cache accepts deletions, a cached call that the body of a `@CacheEvict` method makes,
  -- with a composed key that the eviction names, runs its own method and stores its result, whatever
  -- the cache held before.
  pub cacheable_in_evict :
      (name name' : String) (eo : CacheEvictOptions Args) (o : CacheableOptions Args)
      (method : Method c) (args args' : Args) (s : State) (names ks : List String)
      → ((k : String) (t : State) → (t' : State) × (del k t ≡ some t'))
      → keys_to_delete c (option_keys eo.key) eo.namespace name args ≡ some names
      → keys_of name' o args' ≡ some ks
      → mem_str (first ks) names ≡ true
      → wrap_method_with_cache_evict c name eo
          (λ x. wrap_with_cacheable c name' o method args')
          args
          s
        ≡ store_result c (first ks) o.ttl (method args' (delete_all c names s))
  unfolding wrap_method_with_cache_evict wrap_with_cacheable
  cacheable_in_evict name name' eo o method args args' s names ks accepts evicts composed named =
      rw (evicts, composed, get-delete_all (first ks) names s accepts, named, store.missing_nullish)
        refl
