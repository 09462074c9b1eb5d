-- ===== src/Redis.antt =====
-- packages/redis/src: redis.util.ts, the providers and redis.module.ts. The clients of ioredis are
-- outside: a client is known by what its constructor gets and by the events that it is listened to
-- for. What a configuration holds beyond hosts and ports is numbered.
pub mod Exports
mod Examples
use nestplatform.Base.{
  ℕ, String, Option, none, some, Bool, true, false, List, [], ◌∷◌, ◌==◌, str_eq, if◌then◌else◌,
}
use nestplatform.Common.Modules.{
  InjectionToken, text, class, missing, ModuleConfigBase, DynamicModule, config,
}

-- `db` is a text; `username`, `password` and `tls` are passed on as they are.
pub record RedisStandaloneConfig : Type 0 where
  pub host : Option String
  pub port : Option ℕ
  pub db : Option String
  pub credentials : ℕ

pub data RedisConfig : Type 0 where
  standalone : RedisStandaloneConfig → RedisConfig
  cluster : ℕ → ℕ → RedisConfig

pub data ClientEvent : Type 0 where
  connect error : ClientEvent

pub data RedisClient : Type 0 where
  redis : String → ℕ → Option ℕ → ℕ → List ClientEvent → RedisClient
  redis_cluster : ℕ → ℕ → List ClientEvent → RedisClient

abbrev pub or_else : {A : Type 0} → Option A → A → A
or_else none a = a
or_else (some b) a = b

abbrev pub events : Bool → List ClientEvent
events true = connect ∷ error ∷ []
events false = []

module _ (number : String → ℕ) where
  -- `config.db ? Number(config.db) : undefined`
  abbrev pub database : Option String → Option ℕ
  database none = none
  database (some s) = if str_eq s "" then none else some (number s)

  unfoldable pub create_redis_client : RedisConfig → Bool → RedisClient
  create_redis_client (cluster nodes options) logging = redis_cluster nodes options (events logging)
  create_redis_client (standalone c) logging =
      redis (or_else c.host "127.0.0.1") (or_else c.port 6379) (database c.db) c.credentials
        (events logging)

abbrev pub redis_config : InjectionToken
redis_config = text "token:redis-config"

abbrev pub redis_client : InjectionToken
redis_client = text "token:redis-client"

-- The providers of the module, and others, by their tokens.
pub data RedisProvider : Type 0 where
  config_value : RedisConfig → RedisProvider
  config_factory : ℕ → RedisProvider
  client : Bool → RedisProvider
  other : InjectionToken → RedisProvider

abbrev pub provide : RedisProvider → InjectionToken
provide (config_value c) = redis_config
provide (config_factory f) = redis_config
provide (client logging) = redis_client
provide (other t) = t

-- `config.injectionToken || REDIS_CLIENT`
abbrev pub token_or : InjectionToken → Option InjectionToken → InjectionToken
token_or fallback none = fallback
token_or fallback (some (class n)) = class n
token_or fallback (some (text s)) = if str_eq s "" then fallback else text s

abbrev pub truthy : Option Bool → Bool
truthy none = false
truthy (some b) = b

-- `InjectRedis`: the token that a parameter is injected by.
abbrev pub inject_redis : Option InjectionToken → InjectionToken
inject_redis none = redis_client
inject_redis (some t) = t

abbrev pub exported : Option InjectionToken → Option (List InjectionToken)
exported t = some (token_or redis_client t ∷ [])

unfoldable pub register :
    ModuleConfigBase RedisProvider → Option Bool → RedisConfig → DynamicModule RedisProvider
unfolding config
register c logging redis_settings = config c (record {
  global = missing;
  imports = none;
  providers = some (config_value redis_settings ∷ client (truthy logging) ∷ []);
  exports = exported c.injection_token;
})

unfoldable pub register_async :
    ModuleConfigBase RedisProvider → Option Bool → ℕ → DynamicModule RedisProvider
unfolding config
register_async c logging use_factory = config c (record {
  global = missing;
  imports = none;
  providers = some (config_factory use_factory ∷ client (truthy logging) ∷ []);
  exports = exported c.injection_token;
})
