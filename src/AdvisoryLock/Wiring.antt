-- ===== src/AdvisoryLock/Wiring.antt =====
-- packages/distribution-postgres-advisory-lock/src: the providers of the pool and pglock.module.ts.
use nestplatform.Base.{ℕ, String, Option, none, some, true, [], ◌∷◌}
use nestplatform.Common.Modules.{
  InjectionToken, text, class, given, ModuleConfigBase, DynamicModule, config,
}

-- A configuration has a `pool`, which may be `undefined`, or a connection string.
pub data PgLockModuleConfig : Type 0 where
  with_pool : Option ℕ → PgLockModuleConfig
  with_connection_string : String → PgLockModuleConfig

-- A pool of the caller, or a new one.
pub data Pool : Type 0 where
  existing : Option ℕ → Pool
  new_pool : String → Pool

-- Both providers: `"pool" in config` asks only whether there is the property.
unfoldable pub advisory_pool : PgLockModuleConfig → Pool
advisory_pool (with_pool p) = existing p
advisory_pool (with_connection_string s) = new_pool s

pub data PgLockProvider : Type 0 where
  pool_provider lock_service lock_service_alias : PgLockProvider
  other : InjectionToken → PgLockProvider

abbrev pub lock_service_token : InjectionToken
lock_service_token = text "token:pg-local-service"

abbrev pub provide : PgLockProvider → InjectionToken
provide pool_provider = text "token:pg-advisory-pool"
provide lock_service = class 0
provide lock_service_alias = lock_service_token
provide (other t) = t

-- `register` and `registerAsync`, which differ in what makes the pool only.
unfoldable pub register : ModuleConfigBase PgLockProvider → DynamicModule PgLockProvider
unfolding config
register c = config c (record {
  global = given true;
  imports = none;
  providers = some (pool_provider ∷ lock_service ∷ lock_service_alias ∷ []);
  exports = some (class 0 ∷ lock_service_token ∷ []);
})
