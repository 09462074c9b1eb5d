-- ===== src/Transaction/Proxies.antt =====
-- transactional-proxy.factory.ts of packages/transactional/src, and `proxyResource` of the two
-- adapters: what a decorated method sees when it reads its own properties. A value is what the code
-- asks of it.
pub mod Reaching
mod Examples
use nestplatform.Base.{
  ℕ, String, Option, none, some, Bool, true, false, not, ◌&&◌, ◌||◌, List, [], ◌∷◌, str_eq,
  if◌then◌else◌,
}

-- The properties of an object that the adapters ask for. `target` is `metadata.target`; `built_in`
-- tells an instance of one of the classes that are not proxied, such as an array, a `Map` or a `Date`.
pub record Shape : Type 0 where
  pub has_query : Bool
  pub has_boolean_is_released : Bool
  pub has_create_query_runner : Bool
  pub has_metadata : Bool
  pub has_manager : Bool
  pub target : ℕ
  pub has_start_session : Bool
  pub has_in_transaction : Bool
  pub built_in : Bool

-- A value that counts as false, another one that is no object, a function, which is a model of
-- Mongoose or not, or an object.
mutual
  pub data Node : Type 0 where
    falsy primitive : Node
    function : Bool → ℕ → Node
    object : Shape → Fields → Node

  pub data Fields : Type 0 where
    no_fields : Fields
    field : String → Node → Fields → Fields

-- `{ value }`: the value as it is, a repository of a query runner, or a model that passes a session.
pub data TransactionProxyResource : Type 0 where
  as_it_is : TransactionProxyResource
  runner_repository : ℕ → ℕ → TransactionProxyResource
  session_model : ℕ → ℕ → TransactionProxyResource

-- With the runner of the context, if there is one, and whether it is released.
abbrev pub repository_resource : Option (ℕ × Bool) → ℕ → TransactionProxyResource
repository_resource none target = as_it_is
repository_resource (some (r, true)) target = as_it_is
repository_resource (some (r, false)) target = runner_repository r target

unfoldable pub typeorm_proxy_resource : Option (ℕ × Bool) → Node → Option TransactionProxyResource
typeorm_proxy_resource context falsy = none
typeorm_proxy_resource context primitive = none
typeorm_proxy_resource context (function is_model f) = none
typeorm_proxy_resource context (object s fs) =
    if (s.has_query && s.has_boolean_is_released) || s.has_create_query_runner
    then some as_it_is
    else if s.has_metadata && s.has_manager
    then some (repository_resource context s.target)
    else none

abbrev pub model_resource : Option ℕ → ℕ → TransactionProxyResource
model_resource none model = as_it_is
model_resource (some session) model = session_model session model

unfoldable pub mongoose_proxy_resource : Option ℕ → Node → Option TransactionProxyResource
mongoose_proxy_resource context falsy = none
mongoose_proxy_resource context primitive = none
mongoose_proxy_resource context (function is_model f) =
    if is_model then some (model_resource context f) else none
mongoose_proxy_resource context (object s fs) =
    if s.has_start_session || s.has_in_transaction then some as_it_is else none

-- A missing property is `undefined`.
unfoldable pub get_field : String → Fields → Node
get_field k no_fields = falsy
get_field k (field j n fs) = if str_eq j k then n else get_field k fs

abbrev pub property : String → Node → Node
property k (object s fs) = get_field k fs
property k _ = falsy

-- What a read gives: a resource of the adapter for a value, a function bound to the proxy, a value as
-- it is, or the proxy of an object.
pub data Seen : Type 0 where
  resource : TransactionProxyResource → Node → Seen
  bound : Node → Seen
  unproxied : Node → Seen
  proxy : Node → Seen

-- `isProxyableObject`
abbrev pub is_proxyable_object : Node → Bool
is_proxyable_object (object s fs) = not s.built_in
is_proxyable_object _ = false

abbrev pub is_function : Node → Bool
is_function (function is_model f) = true
is_function _ = false

module _ (proxy_resource : Node → Option TransactionProxyResource) where
  abbrev pub unresolved : Node → Seen
  unresolved n =
      if is_function n then bound n else if is_proxyable_object n then proxy n else unproxied n

  -- The `get` trap, on the value that the property has.
  unfoldable pub get_trap : Node → Seen
  get_trap n = elim (proxy_resource n) [ none ↦ unresolved n | some r ↦ resource r n ]

  unfoldable pub read : String → Seen → Seen
  unfolding get_trap
  read k (proxy n) = get_trap (property k n)
  read k (resource r n) = unproxied (property k n)
  read k (bound n) = unproxied (property k n)
  read k (unproxied n) = unproxied (property k n)

  -- One property after another.
  unfoldable pub read_path : List String → Seen → Seen
  unfolding read
  read_path [] s = s
  read_path (k ∷ ks) s = read_path ks (read k s)
