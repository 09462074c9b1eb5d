-- ===== src/Products.antt =====
-- example/cacheable/src/product.service.ts: the products of the service, its methods, and what each
-- is once the explorer has seen it. The cache manager is a parameter; the service's products stand
-- beside the cache's state, so that a method can read and change both. The delay of a method is left
-- out, and so is logging; prices are natural numbers.
pub mod Names
pub mod Coherence
pub mod Serving
pub mod Deleting
mod Examples
use nestplatform.Base.{
  ℕ, ◌≡◌, refl, ap, sym, ◌∙◌, String, Option, none, some, Bool, true, false, List, [], ◌∷◌, str_eq,
  str_append, if◌then◌else◌, Option-cases, inl, inr, arith,
}
use nestplatform.Cacheable.Keys.{static, built, one}
use nestplatform.Cacheable.Metadata.{
  CacheTtl, text, CacheableOptions, CacheEvictOptions, no_metadata, decorate_cacheable,
  decorate_cache_put, decorate_cache_evict,
}
use nestplatform.Cacheable.Wrappers.{CacheStore, StoreTtl, Settled, fulfilled, Setup, Method}
use nestplatform.Cacheable.Explorer.{on_method}

pub record Product : Type 0 where
  pub id : String
  pub name : String
  pub price : ℕ

-- What the methods return, and so what the cache keeps.
pub data ProductValue : Type 0 where
  undefined_value : ProductValue
  one_product : Product → ProductValue
  all_products : List Product → ProductValue

-- `this.products.find`
abbrev pub find_product : String → List Product → Option Product
find_product id [] = none
find_product id (p ∷ ps) = if str_eq p.id id then some p else find_product id ps

abbrev pub found_value : Option Product → ProductValue
found_value none = undefined_value
found_value (some p) = one_product p

-- The first product with the same `id` is replaced; without one, the new product is pushed.
abbrev pub put_product : Product → List Product → List Product
put_product q [] = q ∷ []
put_product q (p ∷ ps) = if str_eq p.id q.id then q ∷ ps else p ∷ put_product q ps

-- `this.products.filter`
abbrev pub without_product : String → List Product → List Product
without_product id [] = []
without_product id (p ∷ ps) =
    if str_eq p.id id then without_product id ps else p ∷ without_product id ps

-- The options of the decorators.
abbrev pub inventory : {Args : Type 0} → (Args → String) → CacheableOptions Args
inventory id_of = record {
  key = some (built (λ a. some (one (str_append "product:" (id_of a)))));
  namespace = some (static (one "inventory"));
  ttl = some (text "1m");
}

abbrev pub evict_product : CacheEvictOptions String
evict_product = record {
  key = some (built (λ id. some (one (str_append "product:" id))));
  namespace = some (static (one "inventory"));
}

abbrev pub all_options : CacheableOptions Unit
all_options = record {
  key = some (static (one "all-products"));
  namespace = none;
  ttl = some (text "30s");
}

abbrev pub evict_all : CacheEvictOptions Unit
evict_all = record { key = some (static (one "all-products")); namespace = none }

-- What the service runs on: a cache manager, which tells products from `undefined`, the library `ms`,
-- the hash of arguments, and the errors of a call whose key cannot be composed or whose result the
-- cache rejects. `elapse` is what time does to the cache: a value is kept or is gone.
pub record CacheEnvironment (Error : Type 0) : Type 1 where
  pub cache : CacheStore ProductValue
  pub product_not_nullish : (p : Product) → cache.is_nullish (one_product p) ≡ false
  pub elapse : ℕ → cache.State → cache.State
  pub get-elapse :
      (n : ℕ) (k : String) (s : cache.State) (v : ProductValue)
      → cache.get k (elapse n s) ≡ some v
      → cache.is_nullish v ≡ false
      → cache.get k s ≡ some v
  pub ms : String → Option ℕ
  pub v5 : Bool
  pub args_hash : {Args : Type 0} → Args → Option String
  pub key_error : Error
  pub set_error : Error

-- The cache with the products beside it.
module _ (cache : CacheStore ProductValue) where
  open cache use {State, get, set, del, get-set, get-del}

  abbrev pub beside : List Product → Option State → Option (List Product × State)
  beside ps none = none
  beside ps (some s) = some (ps, s)

  abbrev state_of : Option (List Product × State) → State → State
  state_of none t = t
  state_of (some x) t = x.1

  pub beside-some :
      (ps : List Product) (o : Option State) (x : List Product × State)
      → beside ps o ≡ some x
      → o ≡ some x.1
  beside-some ps none x h = cc
  beside-some ps (some s) x h = ap (λ q. some (state_of q s)) h

  abbrev pub with_products : CacheStore ProductValue
  with_products = record {
    State = List Product × State;
    get = λ k x. get k x.1;
    set = λ k v ttl x. beside x.0 (set k v ttl x.1);
    del = λ k x. beside x.0 (del k x.1);
    missing = cache.missing;
    is_nullish = cache.is_nullish;
    missing_nullish = cache.missing_nullish;
    get-set = λ k j v ttl x y h. get-set k j v ttl x.1 y.1 (beside-some x.0 (set k v ttl x.1) y h);
    get-del = λ k j x y h. get-del k j x.1 y.1 (beside-some x.0 (del k x.1) y h);
  }

module _ {Error : Type 0} (env : CacheEnvironment Error) where
  open env use {cache, ms, v5, args_hash, key_error, set_error}

  abbrev pub setup : (Args : Type 0) → Setup Args ProductValue Error
  setup Args = record {
    store = with_products cache;
    args_hash = λ a. args_hash a;
    ms = ms;
    v5 = v5;
    key_error = key_error;
    set_error = set_error;
  }

  abbrev pub get_product : Method (setup String)
  get_product id (ps, s) = ((ps, s), fulfilled (found_value (find_product id ps)))

  abbrev pub update_product : Method (setup Product)
  update_product p (ps, s) = ((put_product p ps, s), fulfilled (one_product p))

  abbrev pub delete_product : Method (setup String)
  delete_product id (ps, s) = ((without_product id ps, s), fulfilled undefined_value)

  abbrev pub get_all_products : Method (setup Unit)
  get_all_products args (ps, s) = ((ps, s), fulfilled (all_products ps))

  abbrev pub clear_all_products_cache : Method (setup Unit)
  clear_all_products_cache args x = (x, fulfilled undefined_value)

  -- The methods as they stand on the service after the exploration.
  unfoldable pub installed_get_product : Method (setup String)
  unfolding on_method
  installed_get_product =
      on_method (setup String) "getProduct" (decorate_cacheable (inventory (λ id. id)) no_metadata)
        get_product

  unfoldable pub installed_update_product : Method (setup Product)
  unfolding on_method
  installed_update_product =
      on_method (setup Product) "updateProduct"
        (decorate_cache_put (inventory (λ p. p.id)) no_metadata) update_product

  unfoldable pub installed_delete_product : Method (setup String)
  unfolding on_method
  installed_delete_product =
      on_method (setup String) "deleteProduct" (decorate_cache_evict evict_product no_metadata)
        delete_product

  unfoldable pub installed_get_all_products : Method (setup Unit)
  unfolding on_method
  installed_get_all_products =
      on_method (setup Unit) "getAllProducts" (decorate_cacheable all_options no_metadata)
        get_all_products

  unfoldable pub installed_clear_all_products_cache : Method (setup Unit)
  unfolding on_method
  installed_clear_all_products_cache =
      on_method (setup Unit) "clearAllProductsCache" (decorate_cache_evict evict_all no_metadata)
        clear_all_products_cache
