-- ===== src/Redlock/Wiring.antt =====
-- packages/distribution-redlock/src: the providers, redlock.module.ts and the constructor of
-- `RedlockService`. A client is an object, known by its number, with what it was made of.
pub mod Starting
use nestplatform.Base.{
  ℕ, suc, String, Option, none, some, Bool, true, false, List, [], ◌∷◌, ◌++◌, contains,
  if◌then◌else◌,
}
use nestplatform.Base.Int.{ℤ}
use nestplatform.Common.Modules.{
  InjectionToken, text, class, missing, given, ModuleConfigBase, DynamicModule, config,
}
use nestplatform.Redis.{RedisConfig, RedisClient, create_redis_client}
use nestplatform.Redlock.Execute.{Ratio, RedlockConfig, default_redlock_config}
use nestplatform.Redlock.Service.{or_else}

-- `Partial<RedlockConfig>`
pub record PartialConfig : Type 0 where
  pub drift_factor : Option Ratio
  pub retry_count : Option ℤ
  pub retry_delay : Option ℕ
  pub retry_jitter : Option ℕ
  pub automatic_extension_threshold : Option ℕ

-- `mergeWithDefaults(defaultRedlockConfig, …)`: no default is an object, so that a property that is
-- given replaces the default, and one that is `undefined` does not.
unfoldable pub redlock_config : PartialConfig → RedlockConfig
redlock_config c = record {
  drift_factor = or_else c.drift_factor default_redlock_config.drift_factor;
  retry_count = or_else c.retry_count default_redlock_config.retry_count;
  retry_delay = or_else c.retry_delay default_redlock_config.retry_delay;
  retry_jitter = or_else c.retry_jitter default_redlock_config.retry_jitter;
  automatic_extension_threshold =
      or_else c.automatic_extension_threshold default_redlock_config.automatic_extension_threshold;
}

pub data RedisClients : Type 0 where
  one : RedisConfig → RedisClients
  several : List RedisConfig → RedisClients

abbrev pub configs : RedisClients → List RedisConfig
configs (one c) = c ∷ []
configs (several cs) = cs

-- `configs.map(…)`: each call makes a new client; `next` is the number of the first.
unfoldable pub create_clients : (String → ℕ) → ℕ → List RedisConfig → Bool → List (ℕ × RedisClient)
unfolding create_redis_client
create_clients number next [] logging = []
create_clients number next (c ∷ cs) logging =
    (next, create_redis_client number c logging) ∷ create_clients number (suc next) cs logging

-- `RedlockRedisClientsProvider`, where `logging` is `undefined` if it is not given.
abbrev pub or_false : Option Bool → Bool
or_false none = false
or_false (some b) = b

unfoldable pub redis_clients :
    (String → ℕ) → ℕ → RedisClients → Option Bool → List (ℕ × RedisClient)
unfolding create_clients
redis_clients number next clients logging =
    create_clients number next (configs clients) (or_false logging)

pub data Started (A : Type 0) : Type 0 where
  started : A → Started A
  at_least_one_client : Started A

-- `RedlockRedisClientsAsyncProvider`, on what the factory returns.
unfoldable pub redis_clients_async :
    Option (List (ℕ × RedisClient)) → Started (List (ℕ × RedisClient))
redis_clients_async none = at_least_one_client
redis_clients_async (some []) = at_least_one_client
redis_clients_async (some (c ∷ cs)) = started (c ∷ cs)

-- `new Set(clients)`, in its order, from `seen` on.
unfoldable pub client_set : List ℕ → List (ℕ × RedisClient) → List ℕ
client_set seen [] = seen
client_set seen ((n, c) ∷ cs) = client_set (if contains n seen then seen else seen ++ n ∷ []) cs

pub record RedlockService : Type 0 where
  pub clients : List ℕ
  pub settings : RedlockConfig

abbrev pub with_clients : List ℕ → RedlockConfig → Started RedlockService
with_clients [] settings = at_least_one_client
with_clients (n ∷ ns) settings = started (record { clients = n ∷ ns; settings = settings })

-- The constructor.
unfoldable pub new_redlock_service : List (ℕ × RedisClient) → RedlockConfig → Started RedlockService
unfolding client_set
new_redlock_service clients settings = with_clients (client_set [] clients) settings

-- The module's providers, by their tokens.
pub data RedlockProvider : Type 0 where
  config_provider clients_provider redlock_service redlock_service_alias : RedlockProvider
  other : InjectionToken → RedlockProvider

abbrev pub redlock_service_token : InjectionToken
redlock_service_token = text "token:redlock-service"

abbrev pub redlock_service_class : InjectionToken
redlock_service_class = class 0

abbrev pub provide : RedlockProvider → InjectionToken
provide config_provider = text "token:redlock-config"
provide clients_provider = text "token:redlock-redis"
provide redlock_service = redlock_service_class
provide redlock_service_alias = redlock_service_token
provide (other t) = t

unfoldable pub register : ModuleConfigBase RedlockProvider → DynamicModule RedlockProvider
unfolding config
register c = config c (record {
  global = missing;
  imports = none;
  providers =
      some (config_provider ∷ clients_provider ∷ redlock_service ∷ redlock_service_alias ∷ []);
  exports = some (redlock_service_class ∷ redlock_service_token ∷ []);
})

unfoldable pub register_async : ModuleConfigBase RedlockProvider → DynamicModule RedlockProvider
unfolding config
register_async c = config c (record {
  global = given true;
  imports = none;
  providers =
      some (config_provider ∷ clients_provider ∷ redlock_service ∷ redlock_service_alias ∷ []);
  exports = some (redlock_service_class ∷ redlock_service_token ∷ []);
})

-- What `register` starts: the provider of the clients is given no `logging`.
unfoldable pub registered_service :
    (String → ℕ) → ℕ → RedisClients → PartialConfig → Started RedlockService
unfolding redis_clients new_redlock_service redlock_config
registered_service number next clients c =
    new_redlock_service (redis_clients number next clients none) (redlock_config c)
