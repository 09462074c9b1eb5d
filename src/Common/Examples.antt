-- ===== src/Common/Examples.antt =====
-- The theorems on packages/common at concrete inputs.
use nestplatform.Common.Modules.{ModuleConfigBase, DynamicModule, given, text, config}
use nestplatform.Common.Modules.Merged.{config_object, module_object, config-deep_merge}
use nestplatform.Base.{
  ℕ, suc, ◌+◌, ◌≡◌, refl, Option, none, some, true, false, [], ◌∷◌, str_eq, if◌then◌else◌,
}
use nestplatform.Common.Engine.{
  ProviderContext, MethodContext, FeatureExplorer, Instance, explore_methods,
}
use nestplatform.Common.Engine.Replacement.{explore_methods_last}
use nestplatform.Common.Merge.{
  Entries, primitive, array, object, no_entries, entry, get_entry, deep_merge,
}
use nestplatform.Common.Merge.Overrides.{deep_merge_objects}

-- Two rules that replace every method: by twice the method, and by one more than it.
abbrev doubled : MethodContext ℕ Unit (ℕ → ℕ) → ℕ → ℕ × Option (ℕ → ℕ)
doubled c s = (suc s, some (λ n. c.method_ref n + c.method_ref n))

abbrev increased : MethodContext ℕ Unit (ℕ → ℕ) → ℕ → ℕ × Option (ℕ → ℕ)
increased c s = (suc s, some (λ n. suc (c.method_ref n)))

abbrev doubling : FeatureExplorer ℕ Unit (ℕ → ℕ)
doubling = record { on_provider = none; on_method = some doubled; on_finish = none }

abbrev increasing : FeatureExplorer ℕ Unit (ℕ → ℕ)
increasing = record { on_provider = none; on_method = some increased; on_finish = none }

abbrev provider : ProviderContext Unit
provider = record { metatype = tt; wrapper = 0 }

abbrev add_ten : ℕ → ℕ
add_ten n = n + 10

abbrev service : Instance (ℕ → ℕ)
service name = if str_eq name "run" then some add_ten else none

explore_methods_last_example :
    (s : ℕ) × ((explore_methods ℕ Unit
          (ℕ → ℕ)
          (doubling ∷ increasing ∷ [])
          provider
          ("run" ∷ [])
          (0, service)).1
        "run"
      ≡ some (λ n. suc (n + 10)))
explore_methods_last_example =
    explore_methods_last ℕ Unit (ℕ → ℕ) (doubling ∷ []) increasing provider "run" add_ten increased
      (λ s n. suc (n + 10)) ("run" ∷ []) (0, service) (refl, λ i s. refl) refl refl refl

-- Defaults with a nested object, and overrides of one property in it.
abbrev defaults : Entries
defaults =
    entry "retry" (object (entry "count" (primitive 3) (entry "delay" (primitive 200) no_entries)))
      (entry "url" (primitive 1) no_entries)

abbrev overrides : Entries
overrides = entry "retry" (object (entry "count" (primitive 5) no_entries)) no_entries

deep_merge_objects_example :
    (m : Entries) × (deep_merge (object defaults) (object overrides) ≡ object m)
    × (get_entry "url" m ≡ some (primitive 1))
unfolding get_entry
deep_merge_objects_example = deep_merge_objects "url" defaults overrides refl

-- A module with one provider, which is global, and a caller that adds another provider.
abbrev caller : ModuleConfigBase ℕ
caller = record {
  global = some false;
  extra_modules = none;
  extra_providers = some (7 ∷ []);
  extra_exports = none;
  injection_token = none;
}

abbrev own_module : DynamicModule ℕ
own_module = record {
  global = given true;
  imports = none;
  providers = some (8 ∷ []);
  exports = some (text "service" ∷ []);
}

config-deep_merge_example :
    (e : Entries) × (deep_merge
        (config_object (λ t. 5) (λ n. n) caller own_module)
        (module_object (λ t. 5) (λ n. n) caller own_module)
      ≡ object e)
    × (get_entry "global" e ≡ some (primitive 1))
    × (get_entry "imports" e ≡ some (array []))
    × (get_entry "providers" e ≡ some (array (7 ∷ 8 ∷ [])))
    × (get_entry "exports" e ≡ some (array (5 ∷ [])))
unfolding config
config-deep_merge_example = config-deep_merge (λ t. 5) (λ n. n) caller own_module
