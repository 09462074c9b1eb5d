-- ===== src/Cacheable/Wrappers.antt =====
-- packages/cacheable/src/cacheable-feature.decoration.ts: the methods that replace decorated ones. A
-- decorated method is a function of its arguments and of the cache's state, which it may change. The
-- cache manager is a parameter with its documented laws; a call of it that is rejected is `none` and
-- leaves the state.
pub mod Memo
use nestplatform.Base.{
  ℕ, zero, suc, ◌≡◌, String, Option, none, some, Bool, true, false, ◌||◌, List, [], ◌∷◌, ◌++◌, map,
  str_eq, if◌then◌else◌,
}
use nestplatform.Cacheable.Keys.{
  Keys, one, many, KeyBuilder, static, built, first, generate_composed_key,
}
use nestplatform.Cacheable.Metadata.{CacheTtl, millis, text, CacheableOptions, CacheEvictOptions}

-- The TTL as the cache manager takes it: a number since version 5, an object before.
pub data StoreTtl : Type 0 where
  number object : ℕ → StoreTtl

pub record CacheStore (Value : Type 0) : Type 1 where
  pub State : Type 0
  pub get : String → State → Option Value
  pub set : String → Value → Option StoreTtl → State → Option State
  pub del : String → State → Option State
  -- The value of a key that is not there, and the values that are `undefined` or `null`.
  pub missing : Value
  pub is_nullish : Value → Bool
  pub missing_nullish : is_nullish missing ≡ true
  pub get-set :
      (k j : String) (v : Value) (ttl : Option StoreTtl) (s s' : State)
      → set k v ttl s ≡ some s'
      → get j s' ≡ (if str_eq k j then some v else get j s)
  pub get-del :
      (k j : String) (s s' : State)
      → del k s ≡ some s'
      → get j s' ≡ (if str_eq k j then some missing else get j s)

pub data Settled (Value Error : Type 0) : Type 0 where
  fulfilled : Value → Settled Value Error
  rejected : Error → Settled Value Error

abbrev pub parsed_ttl : (String → Option ℕ) → Option CacheTtl → Option ℕ
parsed_ttl ms none = none
parsed_ttl ms (some (millis n)) = some n
parsed_ttl ms (some (text s)) = if str_eq s "" then none else ms s

abbrev pub store_ttl : Bool → Option ℕ → Option StoreTtl
store_ttl v5 none = none
store_ttl v5 (some zero) = none
store_ttl true (some (suc n)) = some (StoreTtl.number (suc n))
store_ttl false (some (suc n)) = some (StoreTtl.object (suc n))

-- `ms` is the library of that name, `v5` whether the cache manager has `createCache`.
unfoldable pub parse_cache_ttl : (String → Option ℕ) → Bool → Option CacheTtl → Option StoreTtl
parse_cache_ttl ms v5 ttl = store_ttl v5 (parsed_ttl ms ttl)

-- `Array.isArray(options.key) ? options.key : [options.key]`
abbrev pub option_keys :
    {Args : Type 0} → Option (KeyBuilder Args) → List (Option (KeyBuilder Args))
option_keys (some (static (many ks))) = map (λ k. some (static (one k))) ks
option_keys o = o ∷ []

abbrev pub joined : Option (List String) → Option (List String) → Option (List String)
joined none rest = none
joined (some ks) none = none
joined (some ks) (some rest) = some (ks ++ rest)

-- What the wrappers are built on, and what a call is rejected with where composing its key throws or
-- where the cache rejects its result.
pub record Setup (Args Value Error : Type 0) : Type 1 where
  pub store : CacheStore Value
  pub args_hash : Args → Option String
  pub ms : String → Option ℕ
  pub v5 : Bool
  pub key_error : Error
  pub set_error : Error

module _ {Args Value Error : Type 0} (c : Setup Args Value Error) where
  open c use {store, args_hash, ms, v5, key_error, set_error}
  open store use {State, get, set, del, is_nullish}

  abbrev pub Method : Type 0
  Method = Args → State → State × Settled Value Error

  abbrev pub stored : Value → State → Option State → State × Settled Value Error
  stored v s none = (s, rejected set_error)
  stored v s (some s') = (s', fulfilled v)

  -- The result of the method is put under the key before it is returned.
  abbrev pub store_result :
      String → Option CacheTtl → State × Settled Value Error → State × Settled Value Error
  store_result k ttl (s, rejected e) = (s, rejected e)
  store_result k ttl (s, fulfilled v) = stored v s (set k v (parse_cache_ttl ms v5 ttl) s)

  -- A value that was found is returned; a miss, a nullish value and an error of the cache are not.
  abbrev pub cached_or :
      Option Value → State → State × Settled Value Error → State × Settled Value Error
  cached_or none s computed = computed
  cached_or (some v) s computed = if is_nullish v then computed else (s, fulfilled v)

  abbrev pub cacheable_with :
      Option (List String) → Option CacheTtl → Method → Args → State → State × Settled Value Error
  cacheable_with none ttl method args s = (s, rejected key_error)
  cacheable_with (some ks) ttl method args s =
      cached_or (get (first ks) s) s (store_result (first ks) ttl (method args s))

  unfoldable pub wrap_with_cacheable : String → CacheableOptions Args → Method → Method
  wrap_with_cacheable name o method args s =
      cacheable_with (generate_composed_key args_hash o.key o.namespace name args) o.ttl method args
        s

  abbrev pub put_with :
      Option (List String) → Option CacheTtl → Method → Args → State → State × Settled Value Error
  put_with none ttl method args s = (s, rejected key_error)
  put_with (some ks) ttl method args s = store_result (first ks) ttl (method args s)

  unfoldable pub wrap_method_with_cache_put : String → CacheableOptions Args → Method → Method
  wrap_method_with_cache_put name o method args s =
      put_with (generate_composed_key args_hash o.key o.namespace name args) o.ttl method args s

  -- `keysToDelete`; `none` where composing a key throws, and then nothing is deleted.
  unfoldable pub keys_to_delete :
      List (Option (KeyBuilder Args))
      → Option (KeyBuilder Args)
      → String
      → Args
      → Option (List String)
  keys_to_delete [] namespace name args = some []
  keys_to_delete (k ∷ ks) namespace name args =
      joined (generate_composed_key args_hash k namespace name args)
        (keys_to_delete ks namespace name args)

  abbrev pub kept : State → Option State → State
  kept s none = s
  kept s (some s') = s'

  -- All deletions are started, whichever of them is rejected.
  unfoldable pub delete_all : List String → State → State
  delete_all [] s = s
  delete_all (k ∷ ks) s = delete_all ks (kept s (del k s))

  abbrev pub evicted : Option (List String) → State → State
  evicted none s = s
  evicted (some ks) s = delete_all ks s

  unfoldable pub wrap_method_with_cache_evict : String → CacheEvictOptions Args → Method → Method
  unfolding delete_all keys_to_delete
  wrap_method_with_cache_evict name o method args s =
      method args (evicted (keys_to_delete (option_keys o.key) o.namespace name args) s)
