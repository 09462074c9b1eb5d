-- ===== src/Cacheable/Wiring.antt =====
-- packages/cacheable/src/cacheable.module.ts. CacheModule is outside: what it is registered with is
-- kept beside the module, since the modules that are imported are known by their classes.
use nestplatform.Base.{Option, none, some, [], ◌∷◌}
use nestplatform.Common.Modules.{InjectionToken, class, missing, DynamicModule}

-- The providers, by their classes.
pub data CacheableProvider : Type 0 where
  metadata_accessor metadata_explorer feature_decoration : CacheableProvider

abbrev pub provide : CacheableProvider → InjectionToken
provide metadata_accessor = class 2
provide metadata_explorer = class 3
provide feature_decoration = class 4

abbrev pub feature_explorer_module : InjectionToken
feature_explorer_module = class 0

abbrev pub cache_module : InjectionToken
cache_module = class 1

-- How CacheModule is registered: with options, or with a factory of them.
pub data CacheRegistration (Options : Type 0) : Type 0 where
  registered registered_async : Options → CacheRegistration Options

-- `options = {}`
abbrev pub options_or : {Options : Type 0} → Options → Option Options → Options
options_or empty none = empty
options_or empty (some o) = o

abbrev pub cacheable_module : DynamicModule CacheableProvider
cacheable_module = record {
  global = missing;
  imports = some (feature_explorer_module ∷ cache_module ∷ []);
  providers = some (metadata_accessor ∷ metadata_explorer ∷ feature_decoration ∷ []);
  exports = some (cache_module ∷ []);
}

module _ {Options : Type 0} (empty : Options) where
  unfoldable pub register :
      Option Options → CacheRegistration Options × DynamicModule CacheableProvider
  register options = (registered (options_or empty options), cacheable_module)

  unfoldable pub register_async :
      Option Options → CacheRegistration Options × DynamicModule CacheableProvider
  register_async options = (registered_async (options_or empty options), cacheable_module)
