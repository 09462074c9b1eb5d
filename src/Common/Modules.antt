-- ===== src/Common/Modules.antt =====
-- packages/common/src/utils/configurable-module.util.ts: `ConfigurableModule.config`, by which the
-- packages make their modules.
pub mod Merged
use nestplatform.Base.{
  ℕ, String, Option, none, some, Bool, true, false, ◌&&◌, ◌||◌, List, [], ◌∷◌, ◌++◌, ◌==◌, str_eq,
}

-- A text, or a class by its number.
pub data InjectionToken : Type 0 where
  text : String → InjectionToken
  class : ℕ → InjectionToken

abbrev pub same_token : InjectionToken → InjectionToken → Bool
same_token (text s) (text t) = str_eq s t
same_token (class m) (class n) = m == n
same_token _ _ = false

-- A property of a module: missing, `undefined`, or a value.
pub data Setting : Type 0 where
  missing undefined : Setting
  given : Bool → Setting

pub record ModuleConfigBase (Provider : Type 0) : Type 0 where
  pub global : Option Bool
  pub extra_modules : Option (List InjectionToken)
  pub extra_providers : Option (List Provider)
  pub extra_exports : Option (List InjectionToken)
  pub injection_token : Option InjectionToken

-- What a package passes beside the configuration, and what comes out. The modules that are imported
-- are known by their classes.
pub record DynamicModule (Provider : Type 0) : Type 0 where
  pub global : Setting
  pub imports : Option (List InjectionToken)
  pub providers : Option (List Provider)
  pub exports : Option (List InjectionToken)

module _ {A : Type 0} where
  abbrev pub listed : Option (List A) → List A
  listed none = []
  listed (some xs) = xs

  -- `deepMerge` at a property that is an array in the first object.
  abbrev pub merged_list : List A → Option (List A) → List A
  merged_list xs none = xs
  merged_list xs (some ys) = xs ++ ys

abbrev pub of_option : Option Bool → Setting
of_option none = undefined
of_option (some b) = given b

-- `deepMerge` at `global`: a property of the second object replaces that of the first.
abbrev pub merged_global : Setting → Setting → Setting
merged_global g missing = g
merged_global g undefined = undefined
merged_global g (given b) = given b

unfoldable pub config : {P : Type 0} → ModuleConfigBase P → DynamicModule P → DynamicModule P
config c m = record {
  global = merged_global (of_option c.global) m.global;
  imports = some (merged_list (listed c.extra_modules) m.imports);
  providers = some (merged_list (listed c.extra_providers) m.providers);
  exports = some (merged_list (listed c.extra_exports) m.exports);
}

module _ {P : Type 0} (provide : P → InjectionToken) where
  -- Whether one of the providers has the token.
  abbrev pub provides : InjectionToken → List P → Bool
  provides t [] = false
  provides t (p ∷ ps) = same_token (provide p) t || provides t ps
