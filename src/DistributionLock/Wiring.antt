-- ===== src/DistributionLock/Wiring.antt =====
-- packages/distribution-lock/src: the decorator, distribution-lock-metadata.accessor.ts and
-- distribution-lock-metadata.explorer.ts, the providers and the module; and
-- packages/common/src/utils/metadata-accessor.util.ts.
use nestplatform.Base.{
  String, Option, none, some, Bool, true, false, List, [], ◌∷◌, str_eq, if◌then◌else◌,
}
use nestplatform.Common.Stringify.{Text}
use nestplatform.Common.Modules.{
  InjectionToken, text, class, given, ModuleConfigBase, DynamicModule, config,
}
use nestplatform.DistributionLock.{
  DistributionLockOptions, Action, LockService, wrap_method_with_distribution_lock,
}

-- What metadata is asked of: an object or a function, with its metadata, or another value.
pub data Target (Metadata : Type 0) : Type 0 where
  object : Option Metadata → Target Metadata
  other_value : Target Metadata

-- `getMetadata`, over the reflector.
abbrev pub get_metadata : {Metadata : Type 0} → Target Metadata → Option Metadata
get_metadata (object m) = m
get_metadata other_value = none

-- `DistributionLock`: the metadata that it leaves on a method.
abbrev pub distribution_lock :
    {Args : Type 0} → DistributionLockOptions Args → Target (DistributionLockOptions Args)
distribution_lock o = object (some o)

-- `config.providers`: a lock service, or an object of named services. An object that has one by the
-- name `acquire` is taken for a service itself.
pub data ConfiguredServices (S : Type 0) : Type 0 where
  one : S → ConfiguredServices S
  named : List (String × S) → ConfiguredServices S

abbrev pub has_name : {S : Type 0} → String → List (String × S) → Bool
has_name n [] = false
has_name n ((m, s) ∷ services) = if str_eq m n then true else has_name n services

-- The services by name; `as_service` is what an object of services is when it is used as one.
unfoldable pub provided_services :
    {S : Type 0} → (List (String × S) → S) → ConfiguredServices S → List (String × S)
provided_services as_service (one s) = ("default", s) ∷ []
provided_services as_service (named services) =
    if has_name "acquire" services then ("default", as_service services) ∷ [] else services

module _ {W Value Args : Type 0} (texts : Args → List (Option Text)) where
  -- `onMethod`: what the method is then.
  unfoldable pub on_method :
      List (String × LockService W Value)
      → Text
      → Target (DistributionLockOptions Args)
      → (Args → Action W Value)
      → Args
      → Action W Value
  unfolding wrap_method_with_distribution_lock
  on_method services method_name metadata method = elim (get_metadata metadata) [
    | none ↦ method
    | some o ↦ wrap_method_with_distribution_lock texts method_name services o method
  ]

-- The module's providers, by their tokens; symbols and classes are numbered.
pub data LockProvider : Type 0 where
  lock_services metadata_accessor feature_decoration metadata_explorer : LockProvider
  other : InjectionToken → LockProvider

abbrev pub provide : LockProvider → InjectionToken
provide lock_services = text "token:LOCK_SERVICE"
provide metadata_accessor = class 1
provide feature_decoration = class 2
provide metadata_explorer = class 3
provide (other t) = t

abbrev pub feature_explorer_module : InjectionToken
feature_explorer_module = class 0

-- `register`; `registerAsync` differs by the factory of the services only.
unfoldable pub register : ModuleConfigBase LockProvider → DynamicModule LockProvider
unfolding config
register c = config c (record {
  global = given true;
  imports = some (feature_explorer_module ∷ []);
  providers =
      some (lock_services ∷ metadata_accessor ∷ feature_decoration ∷ metadata_explorer ∷ []);
  exports = none;
})
