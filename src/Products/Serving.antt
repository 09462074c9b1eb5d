-- ===== src/Products/Serving.antt =====
-- Requests to the product service, one after another, with time between them: what they answer with
-- the cache and without it.
use nestplatform.Base.{ℕ, ◌≡◌, refl, ap, ◌∙◌, String, Option, some, List, [], ◌∷◌}
use nestplatform.Cacheable.Wrappers.{StoreTtl, Settled, fulfilled}
use nestplatform.Products.{
  Product, ProductValue, undefined_value, CacheEnvironment, get_product, update_product,
  installed_get_product, installed_update_product,
}
use nestplatform.Products.Coherence.{
  Coherent, get_product_current, update_product_current, elapse-Coherent,
}

pub data Request : Type 0 where
  get_request : String → Request
  update_request : Product → Request
  wait_request : ℕ → Request

module _ {Error : Type 0} (env : CacheEnvironment Error) where
  open env use {cache, elapse}
  open cache use {State, get, set, is_nullish}

  -- A request to the methods as they were declared.
  abbrev pub served_plainly :
      Request → List Product × State → (List Product × State) × Settled ProductValue Error
  served_plainly (get_request id) x = get_product env id x
  served_plainly (update_request p) x = update_product env p x
  served_plainly (wait_request n) x = ((x.0, elapse n x.1), fulfilled undefined_value)

  -- A request to the methods as the explorer leaves them.
  abbrev pub served :
      Request → List Product × State → (List Product × State) × Settled ProductValue Error
  served (get_request id) x = installed_get_product env id x
  served (update_request p) x = installed_update_product env p x
  served (wait_request n) x = ((x.0, elapse n x.1), fulfilled undefined_value)

  unfoldable pub answers :
      (Request → List Product × State → (List Product × State) × Settled ProductValue Error)
      → List Request
      → List Product × State
      → List (Settled ProductValue Error)
  answers serve [] x = []
  answers serve (r ∷ rs) x = (serve r x).1 ∷ answers serve rs (serve r x).0

  -- One request: the same answer, the same products, and a cache that is coherent again.
  served_current :
      (r : Request) (x : List Product × State) (t : State)
      → ((k : String) (v : ProductValue) (ttl : Option StoreTtl) (s : State)
          → (s' : State) × (set k v ttl s ≡ some s'))
      → Coherent env x
      → ((served r x).1 ≡ (served_plainly r (x.0, t)).1)
        × ((served r x).0.0 ≡ (served_plainly r (x.0, t)).0.0)
        × Coherent env (served r x).0
  served_current (get_request id) x t accepts coherent =
      let (s', answered, kept) = get_product_current env id x accepts coherent in
      rw answered (refl, refl, kept)
  served_current (update_request p) x t accepts coherent =
      let (s', answered, kept) = update_product_current env p x accepts coherent in
      rw answered (refl, refl, kept)
  served_current (wait_request n) x t accepts coherent =
      (refl, refl, elapse-Coherent env n x coherent)

  answers_same :
      (rs : List Request) (x y : List Product × State)
      → ((k : String) (v : ProductValue) (ttl : Option StoreTtl) (s : State)
          → (s' : State) × (set k v ttl s ≡ some s'))
      → Coherent env x
      → x.0 ≡ y.0
      → answers served rs x ≡ answers served_plainly rs y
  unfolding answers
  answers_same [] x y accepts coherent same = refl
  answers_same (r ∷ rs) x y accepts coherent same =
      let (answer, products, kept) = served_current r x y.1 accepts coherent in
      let rest =
        answers_same rs (served r x).0 (served_plainly r y).0 accepts kept
          (products ∙ ap (λ ps. (served_plainly r (ps, y.1)).0.0) same) in
      rw (answer ∙ ap (λ ps. (served_plainly r (ps, y.1)).1) same, rest) refl

  -- Over any run of reads and updates, with any time passing between them, the cached service answers
  -- as the service without a cache, if the cache accepts what is stored and holds no other product
  -- than the service's under a product's name at the start.
  pub answers_refine :
      (rs : List Request) (x : List Product × State)
      → ((k : String) (v : ProductValue) (ttl : Option StoreTtl) (s : State)
          → (s' : State) × (set k v ttl s ≡ some s'))
      → Coherent env x
      → answers served rs x ≡ answers served_plainly rs x
  answers_refine rs x accepts coherent = answers_same rs x x accepts coherent refl
