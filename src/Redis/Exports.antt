-- ===== src/Redis/Exports.antt =====
-- The token that the Redis module exports its client by, and its providers.
use nestplatform.Base.{ℕ, ◌≡◌, refl, ap, ◌∙◌, Option, Bool, true, false, ◌||◌, List, [], ◌∷◌, ◌++◌}
use nestplatform.Common.Modules.{InjectionToken, same_token, ModuleConfigBase, listed, provides}
use nestplatform.Redis.{
  RedisConfig, RedisProvider, provide, token_or, redis_client, redis_config, register,
  register_async, config_value, config_factory, client, truthy,
}

or_assoc : (a b c : Bool) → a || (b || c) ≡ (a || b) || c
or_assoc true b c = refl
or_assoc false b c = refl

provides-append :
    (t : InjectionToken) (ps qs : List RedisProvider)
    → provides provide t (ps ++ qs) ≡ (provides provide t ps || provides provide t qs)
provides-append t [] qs = refl
provides-append t (p ∷ ps) qs =
    ap (◌||◌ (same_token (provide p) t)) (provides-append t ps qs)
    ∙ or_assoc (same_token (provide p) t) (provides provide t ps) (provides provide t qs)

module _ (c : ModuleConfigBase RedisProvider) where
  -- The token that the module exports its client by.
  abbrev pub token : InjectionToken
  token = token_or redis_client c.injection_token

  -- It is the token of a provider of the caller's, or of the configuration, or of the client.
  abbrev pub provided : Bool
  provided =
      provides provide token (listed c.extra_providers)
      || (same_token redis_config token || (same_token redis_client token || false))

  -- The module, registered either way, has a provider with the token that it exports its client by
  -- exactly if that is the default token, or that of the configuration, or one that the caller
  -- provides himself.
  pub exported_token_available :
      (logging : Option Bool) (settings : RedisConfig) (use_factory : ℕ)
      → (provides provide token (listed (register c logging settings).providers) ≡ provided)
        × (provides provide token (listed (register_async c logging use_factory).providers)
            ≡ provided)
  unfolding register register_async
  exported_token_available logging settings use_factory = (
    provides-append token (listed c.extra_providers)
        (config_value settings ∷ client (truthy logging) ∷ []),
    provides-append token (listed c.extra_providers)
        (config_factory use_factory ∷ client (truthy logging) ∷ []),
  )
