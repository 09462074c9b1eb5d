-- ===== src/Common/Engine.antt =====
-- packages/common/src/feature-explorer: the registry and the engine that shows every provider, and
-- every method of it, to the rules. A rule keeps what it likes in the shared state `S`; of an instance
-- it sees and sets the methods. Which names the scanner lists is an argument; the wrapper of a provider
-- is known by its number.
pub mod Replacement
use nestplatform.Base.{
  ℕ, String, Option, none, some, Bool, true, false, ◌&&◌, List, [], ◌∷◌, ◌++◌, str_eq,
  if◌then◌else◌,
}

-- `instance[name]`, and `none` where that is not a function.
abbrev pub Instance : Type 0 → Type 0
Instance Method = String → Option Method

abbrev pub set_method : {Method : Type 0} → String → Method → Instance Method → Instance Method
set_method name f i n = if str_eq name n then some f else i n

-- `ProviderContext`, but for the instance.
pub record ProviderContext (Metatype : Type 0) : Type 0 where
  pub metatype : Metatype
  pub wrapper : ℕ

module _ (S Metatype Method : Type 0) where
  -- The instance is as it stands when a rule is called.
  pub record MethodContext : Type 0 where
    pub provider : ProviderContext Metatype
    pub instance_of : Instance Method
    pub method_name : String
    pub method_ref : Method

  -- `IFeatureExplorer`. A method hook sets `instance[methodName]`, or it does not.
  pub record FeatureExplorer : Type 0 where
    pub on_provider : Option (ProviderContext Metatype → S → Instance Method → S × Instance Method)
    pub on_method : Option (MethodContext → S → S × Option Method)
    pub on_finish : Option (S → S)

  -- A provider that has an instance and a metatype, with its prototype's method names; whether its
  -- class is marked as an explorer, and then the explorer it is.
  pub record Provider : Type 0 where
    pub complete : Bool
    pub marked : Bool
    pub rule : FeatureExplorer
    pub context : ProviderContext Metatype
    pub method_names : List String
    pub instance_of : Instance Method

  -- `AppExplorerRuleRegistry.onModuleInit`
  unfoldable pub get_rules : List Provider → List FeatureExplorer
  get_rules [] = []
  get_rules (p ∷ ps) =
      let rest = get_rules ps in if p.complete && p.marked then p.rule ∷ rest else rest

  abbrev pub provider_hook :
      Option (ProviderContext Metatype → S → Instance Method → S × Instance Method)
      → ProviderContext Metatype
      → S × Instance Method
      → S × Instance Method
  provider_hook none m x = x
  provider_hook (some h) m (s, i) = h m s i

  unfoldable pub provider_hooks :
      List FeatureExplorer → ProviderContext Metatype → S × Instance Method → S × Instance Method
  provider_hooks [] m x = x
  provider_hooks (r ∷ rs) m x = provider_hooks rs m (provider_hook r.on_provider m x)

  abbrev pub assign : String → S × Option Method → Instance Method → S × Instance Method
  assign name (s, none) i = (s, i)
  assign name (s, some f) i = (s, set_method name f i)

  abbrev pub method_hook :
      Option (MethodContext → S → S × Option Method)
      → MethodContext
      → S × Instance Method
      → S × Instance Method
  method_hook none c x = x
  method_hook (some h) c (s, i) = assign c.method_name (h (record c { instance_of = i }) s) i

  -- Every rule is given the same context, with the method as it was before them.
  unfoldable pub method_hooks :
      List FeatureExplorer → MethodContext → S × Instance Method → S × Instance Method
  method_hooks [] c x = x
  method_hooks (r ∷ rs) c x = method_hooks rs c (method_hook r.on_method c x)

  -- One round of the loop over the names, where the method is read from the instance once.
  abbrev pub explore_method :
      List FeatureExplorer
      → ProviderContext Metatype
      → String
      → Option Method
      → S × Instance Method
      → S × Instance Method
  explore_method rs m name none x = x
  explore_method rs m name (some f) x =
      method_hooks rs
        (record { provider = m; instance_of = x.1; method_name = name; method_ref = f }) x

  unfoldable pub explore_methods :
      List FeatureExplorer
      → ProviderContext Metatype
      → List String
      → S × Instance Method
      → S × Instance Method
  explore_methods rs m [] x = x
  explore_methods rs m (n ∷ ns) x = explore_methods rs m ns (explore_method rs m n (x.1 n) x)

  unfoldable pub explore_provider : List FeatureExplorer → Provider → S → S × Instance Method
  unfolding provider_hooks explore_methods
  explore_provider rs p s =
      explore_methods rs p.context p.method_names (provider_hooks rs p.context (s, p.instance_of))

  abbrev pub replaced_instance : Provider → S × Instance Method → S × Provider
  replaced_instance p (s, i) = (s, record p { instance_of = i })

  unfoldable pub explore_providers : List FeatureExplorer → List Provider → S → S × List Provider
  unfolding explore_provider
  explore_providers rs [] s = (s, [])
  explore_providers rs (p ∷ ps) s =
      let (s1, p1) = if p.complete then replaced_instance p (explore_provider rs p s) else (s, p) in
      let (s2, ps2) = explore_providers rs ps s1 in (s2, p1 ∷ ps2)

  abbrev pub finish : Option (S → S) → S → S
  finish none s = s
  finish (some h) s = h s

  unfoldable pub finish_all : List FeatureExplorer → S → S
  finish_all [] s = s
  finish_all (r ∷ rs) s = finish_all rs (finish r.on_finish s)

  abbrev pub after_finish : List FeatureExplorer → S × List Provider → Bool × (S × List Provider)
  after_finish rs (s, ps) = (true, (finish_all rs s, ps))

  -- `FeatureExplorerEngine.onModuleInit`, with the static `initialized` of the process.
  unfoldable pub on_module_init : Bool → List Provider → S → Bool × (S × List Provider)
  unfolding explore_providers finish_all get_rules
  on_module_init true ps s = (true, (s, ps))
  on_module_init false ps s = after_finish (get_rules ps) (explore_providers (get_rules ps) ps s)
