-- ===== src/Common/Modules/Merged.antt =====
-- `config` and `deepMerge`: the module that is made is the deep merge of two objects.
use nestplatform.Base.{
  ℕ, ◌≡◌, refl, ap, sym, ◌∙◌, String, Option, none, some, Bool, true, false, List, map, arith,
}
use mathlib.Core.List.{map-append}
use nestplatform.Common.Merge.{
  Value, Entries, undefined_value, primitive, array, object, no_entries, entry, get_entry,
  deep_merge, merge_entries,
}
use nestplatform.Common.Merge.Overrides.{distinct_keys, deeply, get-merge_entries}
use nestplatform.Common.Modules.{
  InjectionToken, Setting, missing, undefined, given, ModuleConfigBase, DynamicModule, listed,
  merged_list, of_option, merged_global, config,
}

-- The value of a setting that is there; tokens and providers go by numbers.
abbrev pub boolean : Bool → Value
boolean true = primitive 1
boolean false = primitive 0

abbrev pub setting_value : Setting → Value
setting_value missing = undefined_value
setting_value undefined = undefined_value
setting_value (given b) = boolean b

abbrev with_global : Setting → Entries → Entries
with_global missing es = es
with_global undefined es = entry "global" undefined_value es
with_global (given b) es = entry "global" (boolean b) es

abbrev with_list : String → Option (List ℕ) → Entries → Entries
with_list k none es = es
with_list k (some xs) es = entry k (array xs) es

abbrev source : Setting → Option (List ℕ) → Option (List ℕ) → Option (List ℕ) → Entries
source g i p x = with_global g (
    with_list "imports" i
      (with_list "providers" p (with_list "exports" x (entry "module" (primitive 0) no_entries))))

abbrev target : Option Bool → List ℕ → List ℕ → List ℕ → Entries
target g i p x =
    entry "global" (setting_value (of_option g)) (
      entry "imports" (array i)
        (entry "providers" (array p) (entry "exports" (array x) no_entries)))

source_distinct : (g : Setting) (i p x : Option (List ℕ)) → distinct_keys (source g i p x) ≡ true
source_distinct missing i p x = ground arith
source_distinct undefined i p x = ground arith
source_distinct (given b) i p x = ground arith

module _ (b : Option Bool) (j q y : List ℕ) (i p x : Option (List ℕ)) where
  abbrev at_key : String → Setting → Option Value
  at_key k g =
      deeply (get_entry k (source g i p x)) (get_entry k (target b j q y))
        (get_entry k (target b j q y))

  global_merged :
      (g : Setting) → at_key "global" g ≡ some (setting_value (merged_global (of_option b) g))
  unfolding get_entry
  global_merged missing = ground arith
  global_merged undefined = ground arith
  global_merged (given c) = ground arith

  imports_merged : (g : Setting) → at_key "imports" g ≡ some (array (merged_list j i))
  unfolding get_entry deep_merge
  imports_merged missing = ground arith
  imports_merged undefined = ground arith
  imports_merged (given c) = ground arith

  providers_merged : (g : Setting) → at_key "providers" g ≡ some (array (merged_list q p))
  unfolding get_entry deep_merge
  providers_merged missing = ground arith
  providers_merged undefined = ground arith
  providers_merged (given c) = ground arith

  exports_merged : (g : Setting) → at_key "exports" g ≡ some (array (merged_list y x))
  unfolding get_entry deep_merge
  exports_merged missing = ground arith
  exports_merged undefined = ground arith
  exports_merged (given c) = ground arith

module _ {A : Type 0} (number : A → ℕ) where
  abbrev numbered : Option (List A) → Option (List ℕ)
  numbered none = none
  numbered (some xs) = some (map number xs)

  map-merged_list :
      (xs : List A) (o : Option (List A))
      → merged_list (map number xs) (numbered o) ≡ map number (merged_list xs o)
  map-merged_list xs none = refl
  map-merged_list xs (some ys) = sym (map-append number xs ys)

module _ {P : Type 0} (token_number : InjectionToken → ℕ) (number : P → ℕ) (c : ModuleConfigBase P)
    (m : DynamicModule P) where
  -- The two objects that `config` merges.
  abbrev pub config_object : Value
  config_object = object (
      target c.global (map token_number (listed c.extra_modules))
        (map number (listed c.extra_providers)) (map token_number (listed c.extra_exports)))

  abbrev pub module_object : Value
  module_object = object (
      source m.global (numbered token_number m.imports) (numbered number m.providers)
        (numbered token_number m.exports))

  -- The module that `config` makes has the properties of the deep merge of the two objects: `global` is
  -- that of the package where it sets one, and in every list what the caller adds stands before what
  -- the package has.
  pub config-deep_merge :
      (e : Entries) × (deep_merge config_object module_object ≡ object e)
      × (get_entry "global" e ≡ some (setting_value (config c m).global))
      × (get_entry "imports" e ≡ some (array (map token_number (listed (config c m).imports))))
      × (get_entry "providers" e ≡ some (array (map number (listed (config c m).providers))))
      × (get_entry "exports" e ≡ some (array (map token_number (listed (config c m).exports))))
  unfolding config deep_merge
  config-deep_merge =
      let j = map token_number (listed c.extra_modules) in
      let q = map number (listed c.extra_providers) in
      let y = map token_number (listed c.extra_exports) in
      let i = numbered token_number m.imports in
      let p = numbered number m.providers in
      let x = numbered token_number m.exports in
      let t = target c.global j q y in
      let s = source m.global i p x in
      let at = λ (k : String). get-merge_entries k t t s (source_distinct m.global i p x) in
      (
        merge_entries t t s,
        refl,
        at "global" ∙ global_merged c.global j q y i p x m.global,
        at "imports"
            ∙ imports_merged c.global j q y i p x m.global
            ∙ ap (λ l. some (array l))
                (map-merged_list token_number (listed c.extra_modules) m.imports),
        at "providers"
            ∙ providers_merged c.global j q y i p x m.global
            ∙ ap (λ l. some (array l))
                (map-merged_list number (listed c.extra_providers) m.providers),
        at "exports"
            ∙ exports_merged c.global j q y i p x m.global
            ∙ ap (λ l. some (array l))
                (map-merged_list token_number (listed c.extra_exports) m.exports),
      )
