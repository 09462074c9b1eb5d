-- ===== src/Common/Engine/Replacement.antt =====
-- What a method is after the rules have seen it.
use nestplatform.Base.{
  distinct, mem_key, ◌≡◌, refl, sym, ap, ◌∙◌, String, Option, none, some, true, false, List, [],
  ◌∷◌, ◌++◌, str_eq, str_eq_iff, arith, inl, inr, Bool-cases,
}
use nestplatform.Common.Engine.{
  Instance, ProviderContext, MethodContext, FeatureExplorer, method_hook, method_hooks,
  explore_method, explore_methods, assign,
}

module _ (S Metatype Method : Type 0) where
  abbrev Rule : Type 0
  Rule = FeatureExplorer S Metatype Method

  abbrev Context : Type 0
  Context = MethodContext S Metatype Method

  abbrev State : Type 0
  State = S × Instance Method

  -- The hooks of a method set nothing but that method.
  assign_elsewhere :
      (name n : String) (y : S × Option Method) (i : Instance Method)
      → str_eq name n ≡ false
      → (assign S Metatype Method name y i).1 n ≡ i n
  assign_elsewhere name n (s, none) i other = refl
  assign_elsewhere name n (s, some f) i other = rw other refl

  method_hook_elsewhere :
      (o : Option (Context → S → S × Option Method)) (c : Context) (x : State) (n : String)
      → str_eq c.method_name n ≡ false
      → (method_hook S Metatype Method o c x).1 n ≡ x.1 n
  method_hook_elsewhere none c x n other = refl
  method_hook_elsewhere (some h) c (s, i) n other =
      assign_elsewhere c.method_name n (h (record c { instance_of = i }) s) i other

  method_hooks_elsewhere :
      (rs : List Rule) (c : Context) (x : State) (n : String)
      → str_eq c.method_name n ≡ false
      → (method_hooks S Metatype Method rs c x).1 n ≡ x.1 n
  unfolding method_hooks
  method_hooks_elsewhere [] c x n other = refl
  method_hooks_elsewhere (r ∷ rs) c x n other =
      method_hooks_elsewhere rs c (method_hook S Metatype Method r.on_method c x) n other
      ∙ method_hook_elsewhere r.on_method c x n other

  explore_method_elsewhere :
      (rs : List Rule) (m : ProviderContext Metatype) (name n : String) (o : Option Method)
      (x : State)
      → str_eq name n ≡ false
      → (explore_method S Metatype Method rs m name o x).1 n ≡ x.1 n
  explore_method_elsewhere rs m name n none x other = refl
  explore_method_elsewhere rs m name n (some f) x other =
      method_hooks_elsewhere rs
        (record { provider = m; instance_of = x.1; method_name = name; method_ref = f }) x n other

  explore_methods_elsewhere :
      (rs : List Rule) (m : ProviderContext Metatype) (ns : List String) (x : State) (n : String)
      → mem_key n ns ≡ false
      → (explore_methods S Metatype Method rs m ns x).1 n ≡ x.1 n
  unfolding explore_methods
  explore_methods_elsewhere rs m [] x n out = refl
  explore_methods_elsewhere rs m (k ∷ ns) x n out =
      explore_methods_elsewhere rs m ns (explore_method S Metatype Method rs m k (x.1 k) x) n
        (ground arith)
      ∙ explore_method_elsewhere rs m k n (x.1 k) x (ground arith)

  method_hooks-append :
      (rs : List Rule) (r : Rule) (c : Context) (x : State)
      → method_hooks S Metatype Method (rs ++ r ∷ []) c x
        ≡ method_hook S Metatype Method r.on_method c (method_hooks S Metatype Method rs c x)
  unfolding method_hooks
  method_hooks-append [] r c x = refl
  method_hooks-append (q ∷ rs) r c x =
      method_hooks-append rs r c (method_hook S Metatype Method q.on_method c x)

  assign_sets :
      (name : String) (y : S × Option Method) (i : Instance Method) (f : Method)
      → y.1 ≡ some f
      → (assign S Metatype Method name y i).1 name ≡ some f
  assign_sets name (s, none) i f h = cc
  assign_sets name (s, some g) i f h = rw ((str_eq_iff name name).1 refl) h

  module _ (rs : List Rule) (r : Rule) (m : ProviderContext Metatype) (name : String) (f : Method)
      (h : Context → S → S × Option Method) (g : S → Method) where
    -- The rule replaces the method, given the method itself, by `g` of its state, whatever the instance
    -- has by then.
    abbrev pub Replaces : Type 0
    Replaces =
        (r.on_method ≡ some h)
        × ((i : Instance Method) (s : S)
            → (h (record { provider = m; instance_of = i; method_name = name; method_ref = f }) s).1
              ≡ some (g s))

    hooks_last :
        (x : State)
        → Replaces
        → (s : S) × ((explore_method S Metatype Method (rs ++ r ∷ []) m name (some f) x).1 name
            ≡ some (g s))
    hooks_last x (hooked, sets) =
        let c : Context = record {
          provider = m;
          instance_of = x.1;
          method_name = name;
          method_ref = f;
        } in
        let y = method_hooks S Metatype Method rs c x in
        (
          y.0,
          rw (method_hooks-append rs r c x, hooked)
              (assign_sets name (h (record c { instance_of = y.1 }) y.0) y.1 (g y.0)
                (sets y.1 y.0)),
        )

    -- If the last rule replaces a method, then after the exploration of an instance the method is
    -- that rule's replacement of the method as it was before, whatever the rules before it made of
    -- it; the names are those of the prototype, each once.
    pub explore_methods_last :
        (ns : List String) (x : State)
        → Replaces
        → distinct ns ≡ true
        → mem_key name ns ≡ true
        → x.1 name ≡ some f
        → (s : S) × ((explore_methods S Metatype Method (rs ++ r ∷ []) m ns x).1 name ≡ some (g s))
    unfolding explore_methods
    explore_methods_last [] x rep d named e = absurd (ground arith)
    explore_methods_last (k ∷ ns) x rep d named e = elim (Bool-cases (str_eq k name)) [
      | inl same ↦
          let here : k ≡ name = (str_eq_iff k name).0 same in
          let all = rs ++ r ∷ [] in
          let once : mem_key name ns ≡ false = sym (ap (λ j. mem_key j ns) here) ∙ ground arith in
          let (s, last) = hooks_last x rep in
          (
            s,
            explore_methods_elsewhere all m ns (explore_method S Metatype Method all m k (x.1 k) x)
                  name once
                ∙ ap (λ j. (explore_method S Metatype Method all m j (x.1 j) x).1 name) here
                ∙ ap (λ o. (explore_method S Metatype Method all m name o x).1 name) e
                ∙ last,
          )
      | inr other ↦
          explore_methods_last ns (explore_method S Metatype Method (rs ++ r ∷ []) m k (x.1 k) x)
            rep (ground arith) (ground arith)
            (explore_method_elsewhere (rs ++ r ∷ []) m k name (x.1 k) x other ∙ e)
    ]
