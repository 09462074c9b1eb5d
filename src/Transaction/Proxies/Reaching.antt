-- ===== src/Transaction/Proxies/Reaching.antt =====
-- Which repositories a decorated method reaches.
use nestplatform.Base.{
  ℕ, ◌≡◌, refl, ap, ◌∙◌, String, Option, none, some, Bool, true, false, ◌&&◌, List, [], ◌∷◌, arith,
}
use nestplatform.Transaction.Proxies.{
  Shape, Node, falsy, primitive, function, object, Fields, runner_repository,
  typeorm_proxy_resource, property, resource, proxy, unproxied, is_proxyable_object, get_trap, read,
  read_path,
}

-- An object that is neither a resource of the adapter nor built in: the code goes on into it.
abbrev pub Ordinary : Option (ℕ × Bool) → Node → Type 0
Ordinary context n = (typeorm_proxy_resource context n ≡ none) × (is_proxyable_object n ≡ true)

-- The value at the end of a path, where every value before it is ordinary.
abbrev pub Reaches : Option (ℕ × Bool) → Node → List String → Node → Type 0
Reaches context n [] m = n ≡ m
Reaches context n (k ∷ []) m = property k n ≡ m
Reaches context n (k ∷ j ∷ ks) m =
    Ordinary context (property k n) × Reaches context (property k n) (j ∷ ks) m

-- A repository: it has metadata and a manager, and is neither a query runner nor a data source.
abbrev pub IsRepository : Node → ℕ → Type 0
IsRepository (object s fs) t =
    (s.has_query && s.has_boolean_is_released ≡ false)
    × (s.has_create_query_runner ≡ false)
    × (s.has_metadata && s.has_manager ≡ true)
    × (s.target ≡ t)
IsRepository _ t = ⊥

read-Ordinary :
    (context : Option (ℕ × Bool)) (n : Node)
    → Ordinary context n
    → get_trap (typeorm_proxy_resource context) n ≡ proxy n
unfolding get_trap
read-Ordinary context falsy (none_found, proxied) = ground arith
read-Ordinary context primitive (none_found, proxied) = ground arith
read-Ordinary context (function b f) (none_found, proxied) = ground arith
read-Ordinary context (object s fs) (none_found, proxied) = rw (none_found, get_trap, proxied) refl

repository-resource :
    (r t : ℕ) (m : Node)
    → IsRepository m t
    → typeorm_proxy_resource (some (r, false)) m ≡ some (runner_repository r t)
unfolding typeorm_proxy_resource
repository-resource r t falsy h = absurd h
repository-resource r t primitive h = absurd h
repository-resource r t (function b f) h = absurd h
repository-resource r t (object s fs) (no_runner, no_source, repository, same) =
    rw (no_runner, no_source, repository, same) refl

repository_found :
    (r t : ℕ) (m : Node)
    → IsRepository m t
    → get_trap (typeorm_proxy_resource (some (r, false))) m ≡ resource (runner_repository r t) m
unfolding get_trap
repository_found r t m h = rw (repository-resource r t m h, get_trap) refl

-- In a transaction whose runner is not released, a decorated method that reads a repository, from its
-- provider or through objects of it that are neither built in nor resources, gets the repository of
-- the transaction's runner for the same entity.
pub read_path_repository :
    (r t : ℕ) (k : String) (ks : List String) (n m : Node)
    → Reaches (some (r, false)) n (k ∷ ks) m
    → IsRepository m t
    → read_path (typeorm_proxy_resource (some (r, false))) (k ∷ ks) (proxy n)
      ≡ resource (runner_repository r t) m
unfolding read_path read
read_path_repository r t k [] n m at is =
    ap (get_trap (typeorm_proxy_resource (some (r, false)))) at ∙ repository_found r t m is
read_path_repository r t k (j ∷ ks) n m (ordinary, rest) is =
    ap (read_path (typeorm_proxy_resource (some (r, false))) (j ∷ ks))
      (read-Ordinary (some (r, false)) (property k n) ordinary)
    ∙ read_path_repository r t j ks (property k n) m rest is

-- The value at the end of a path.
abbrev pub at_path : List String → Node → Node
at_path [] n = n
at_path (k ∷ ks) n = at_path ks (property k n)

read_path_unproxied :
    (context : Option (ℕ × Bool)) (ks : List String) (n : Node)
    → read_path (typeorm_proxy_resource context) ks (unproxied n) ≡ unproxied (at_path ks n)
unfolding read_path read
read_path_unproxied context [] n = refl
read_path_unproxied context (k ∷ ks) n = read_path_unproxied context ks (property k n)

hides :
    (context : Option (ℕ × Bool)) (m : Node) (b : Shape) (fs : Fields)
    → typeorm_proxy_resource context m ≡ none
    → m ≡ object b fs
    → b.built_in ≡ true
    → get_trap (typeorm_proxy_resource context) m ≡ unproxied m
unfolding get_trap
hides context falsy b fs none_found at hidden = cc
hides context primitive b fs none_found at hidden = cc
hides context (function i f) b fs none_found at hidden = cc
hides context (object s gs) b fs none_found at hidden =
    let inside : s.built_in ≡ true = ground arith in rw (none_found, get_trap, inside) refl

-- A value that is built in, such as an array or a `Map`, and is no resource hides what it holds:
-- whatever a decorated method reads from it is the value itself, a repository of no transaction.
pub read_path_built_in :
    (context : Option (ℕ × Bool)) (k : String) (ks : List String) (n : Node) (b : Shape)
    (fs : Fields)
    → typeorm_proxy_resource context (property k n) ≡ none
    → property k n ≡ object b fs
    → b.built_in ≡ true
    → read_path (typeorm_proxy_resource context) (k ∷ ks) (proxy n) ≡ unproxied (at_path (k ∷ ks) n)
unfolding read_path read
read_path_built_in context k ks n b fs none_found at hidden =
    ap (read_path (typeorm_proxy_resource context) ks)
      (hides context (property k n) b fs none_found at hidden)
    ∙ read_path_unproxied context ks (property k n)
