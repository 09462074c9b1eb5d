-- ===== src/Transaction/Proxies/Examples.antt =====
-- A provider with a repository in an object and another one in an array.
use nestplatform.Base.{◌≡◌, refl, some, Bool, true, false, [], ◌∷◌}
use nestplatform.Transaction.Proxies.{
  Shape, Node, object, no_fields, field, runner_repository, typeorm_proxy_resource, get_field,
  resource, proxy, read_path,
}
use nestplatform.Transaction.Proxies.Reaching.{read_path_repository}

abbrev plain : Bool → Shape
plain b = record {
  has_query = false;
  has_boolean_is_released = false;
  has_create_query_runner = false;
  has_metadata = false;
  has_manager = false;
  target = 0;
  has_start_session = false;
  has_in_transaction = false;
  built_in = b;
}

abbrev orders : Node
orders =
    object (record (plain false) { has_metadata = true; has_manager = true; target = 7 }) no_fields

abbrev provider : Node
provider = object (plain false) (
    field "helper" (object (plain false) (field "repo" orders no_fields))
      (field "all" (object (plain true) (field "0" orders no_fields)) no_fields))

read_path_repository_example :
    read_path (typeorm_proxy_resource (some (3, false))) ("helper" ∷ "repo" ∷ []) (proxy provider)
    ≡ resource (runner_repository 3 7) orders
unfolding typeorm_proxy_resource get_field
read_path_repository_example =
    read_path_repository 3 7 "helper" ("repo" ∷ []) provider orders ((refl, refl), refl)
      (refl, refl, refl, refl)
