-- ===== src/Transaction/Rollback/Matching.antt =====
-- `shouldRollback` against the option's documented meaning, and where it throws.
use mathlib.Core.Path.{subst}
use nestplatform.Base.{
  Option, none, some, Bool, true, false, ◌||◌, List, [], ◌∷◌, ◌++◌, str_eq, str_eq_iff, ◌≡◌, ◌≢◌,
  ◌⊎◌, ◌↔◌, refl, sym, ◌∙◌, inl, inr, arith, All, Option-cases, Bool-cases,
}
use nestplatform.Transaction.Rollback.{
  Err, Called, Criterion, named, callable, other_value, RollbackOnError, not_given, always, single,
  several, is_truthy, is_true, any_criterion, decide_rollback, typeorm_should_rollback,
  mongoose_should_rollback,
}

-- An error meets a criterion by its name, by its class, or by the predicate.
abbrev pub Meets : (Called → Bool) → Err → Criterion → Type 0
Meets accepts e (named s) = (e.name ≡ s) ⊎ (e.constructor_name ≡ s)
Meets accepts e (callable is_instance call) =
    (is_instance e ≡ some true) ⊎ (accepts (call e) ≡ true)
Meets accepts e other_value = ⊥

-- Asking whether the error is an instance does not throw.
abbrev pub HasPrototype : Err → Criterion → Type 0
HasPrototype e (named s) = Unit
HasPrototype e (callable is_instance call) = is_instance e ≢ none
HasPrototype e other_value = Unit

abbrev pub AnyMeets : (Called → Bool) → Err → List Criterion → Type 0
AnyMeets accepts e [] = ⊥
AnyMeets accepts e (c ∷ cs) = Meets accepts e c ⊎ AnyMeets accepts e cs

-- A test that is `some true` exactly where the criteria are met, and `some false` otherwise.
abbrev Decides : Option Bool → Type 0 → Type 0
Decides o P = ((o ≡ some true) × P) ⊎ ((o ≡ some false) × (¬ P))

-- One criterion that is not met leaves the question to the others.
Decides-skip : (o : Option Bool) (P Q : Type 0) → ¬ P → Decides o Q → Decides o (P ⊎ Q)
Decides-skip o P Q no_p (inl (e, q)) = inl (e, inr q)
Decides-skip o P Q no_p (inr (e, no_q)) = inr (e, λ x. elim x [ inl p ↦ no_p p | inr q ↦ no_q q ])

any_criterion-skip :
    (accepts : Called → Bool) (e : Err) (c : Criterion) (cs : List Criterion)
    → HasPrototype e c
    → ¬ Meets accepts e c
    → any_criterion accepts e (c ∷ cs) ≡ any_criterion accepts e cs
unfolding any_criterion
any_criterion-skip accepts e (named s) cs h no_met =
    elim (Bool-cases (str_eq e.name s || str_eq e.constructor_name s)) [
      | inl met ↦
          absurd (no_met (ground (arith, str_eq_iff e.name s, str_eq_iff e.constructor_name s)))
      | inr unmet ↦ rw (unmet, any_criterion)
    ]
any_criterion-skip accepts e (callable is_instance call) cs h no_met =
    elim (Option-cases (is_instance e)) [
      | inl throws_there ↦ absurd (h throws_there)
      | inr (true, an_instance) ↦ absurd (no_met (inl an_instance))
      | inr (false, no_instance) ↦ elim (Bool-cases (accepts (call e))) [
        | inl met ↦ absurd (no_met (inr met))
        | inr unmet ↦ rw (no_instance, unmet, any_criterion)
      ]
    ]
any_criterion-skip accepts e other_value cs h no_met = refl

any_criterion-decides_rest :
    (accepts : Called → Bool) (e : Err) (c : Criterion) (cs : List Criterion)
    → HasPrototype e c
    → ¬ Meets accepts e c
    → Decides (any_criterion accepts e cs) (AnyMeets accepts e cs)
    → Decides (any_criterion accepts e (c ∷ cs)) (AnyMeets accepts e (c ∷ cs))
any_criterion-decides_rest accepts e c cs h no_met d =
    subst (λ o. Decides o (AnyMeets accepts e (c ∷ cs)))
      (sym (any_criterion-skip accepts e c cs h no_met))
      (Decides-skip (any_criterion accepts e cs) (Meets accepts e c) (AnyMeets accepts e cs) no_met
        d)

-- With prototypes everywhere, the loop says whether a criterion is met.
any_criterion-decides :
    (accepts : Called → Bool) (e : Err) (cs : List Criterion)
    → All (HasPrototype e) cs
    → Decides (any_criterion accepts e cs) (AnyMeets accepts e cs)
unfolding any_criterion
any_criterion-decides accepts e [] h = inr (refl, λ x. x)
any_criterion-decides accepts e (named s ∷ cs) h =
    elim (Bool-cases (str_eq e.name s || str_eq e.constructor_name s)) [
      | inl met ↦
          inl (rw met, inl (ground (arith, str_eq_iff e.name s, str_eq_iff e.constructor_name s)))
      | inr unmet ↦
          any_criterion-decides_rest accepts e (named s) cs h.0
            (λ m. ground (arith, str_eq_iff e.name s, str_eq_iff e.constructor_name s))
            (any_criterion-decides accepts e cs h.1)
    ]
any_criterion-decides accepts e (callable is_instance call ∷ cs) h =
    elim (Option-cases (is_instance e)) [
      | inl throws_there ↦ absurd (h.0 throws_there)
      | inr (true, an_instance) ↦ inl (rw (an_instance, any_criterion), inl (inl an_instance))
      | inr (false, no_instance) ↦ elim (Bool-cases (accepts (call e))) [
        | inl met ↦ inl (ground arith, inl (inr met))
        | inr unmet ↦
            any_criterion-decides_rest accepts e (callable is_instance call) cs h.0
              (λ m. ground arith) (any_criterion-decides accepts e cs h.1)
      ]
    ]
any_criterion-decides accepts e (other_value ∷ cs) h =
    Decides-skip (any_criterion accepts e cs) ⊥ (AnyMeets accepts e cs) (λ m. m)
      (any_criterion-decides accepts e cs h.1)

-- A criterion before the first one without a prototype settles the question; if none is met, the
-- loop throws.
any_criterion-throws :
    (accepts : Called → Bool) (e : Err) (before after' : List Criterion)
    (is_instance : Err → Option Bool) (call : Err → Called)
    → All (HasPrototype e) before
    → ¬ AnyMeets accepts e before
    → is_instance e ≡ none
    → any_criterion accepts e (before ++ callable is_instance call ∷ after') ≡ none
unfolding any_criterion
any_criterion-throws accepts e [] after' is_instance call h no_met throws_there =
    rw (throws_there, any_criterion)
any_criterion-throws accepts e (c ∷ cs) after' is_instance call h no_met throws_there =
    any_criterion-skip accepts e c (cs ++ callable is_instance call ∷ after') h.0
      (λ m. no_met (inl m))
    ∙ any_criterion-throws accepts e cs after' is_instance call h.1 (λ m. no_met (inr m))
        throws_there

-- What the option asks for: true or no option asks to roll back every error, false none, and a
-- list of criteria the errors that meet one.
abbrev pub AsksRollback : (Called → Bool) → Err → RollbackOnError → Type 0
AsksRollback accepts e not_given = Unit
AsksRollback accepts e (always b) = b ≡ true
AsksRollback accepts e (single c) = Meets accepts e c
AsksRollback accepts e (several cs) = AnyMeets accepts e cs

abbrev pub PrototypesIn : Err → RollbackOnError → Type 0
PrototypesIn e not_given = Unit
PrototypesIn e (always b) = Unit
PrototypesIn e (single c) = HasPrototype e c
PrototypesIn e (several cs) = All (HasPrototype e) cs

decide_rollback-decides :
    (accepts : Called → Bool) (e : Err) (o : RollbackOnError)
    → PrototypesIn e o
    → Decides (decide_rollback accepts e o) (AsksRollback accepts e o)
unfolding decide_rollback
decide_rollback-decides accepts e not_given h = inl (refl, tt)
decide_rollback-decides accepts e (always true) h = inl (refl, refl)
decide_rollback-decides accepts e (always false) h = inr (refl, λ x. cc)
decide_rollback-decides accepts e (single c) h =
    elim (any_criterion-decides accepts e (c ∷ []) (h, tt)) [
      | inl (met, inl m) ↦ inl (met, m)
      | inl (met, inr m) ↦ absurd m
      | inr (unmet, m) ↦ inr (unmet, λ x. m (inl x))
    ]
decide_rollback-decides accepts e (several cs) h = any_criterion-decides accepts e cs h

decide_rollback_iff :
    (accepts : Called → Bool) (e : Err) (o : RollbackOnError)
    → PrototypesIn e o
    → ((decide_rollback accepts e o ≡ some true) ↔ AsksRollback accepts e o)
      × ((decide_rollback accepts e o ≡ some false) ↔ (¬ AsksRollback accepts e o))
decide_rollback_iff accepts e o h = elim (decide_rollback-decides accepts e o h) [
  | inl (met, m) ↦ ((λ x. m, λ x. met), (λ x. absurd (ground arith), λ no_m. absurd (no_m m)))
  | inr (unmet, no_m) ↦
      ((λ x. absurd (ground arith), λ m. absurd (no_m m)), (λ x. no_m, λ x. unmet))
]

-- If no criterion throws at `instanceof`, each adapter rolls back exactly the errors that the option
-- asks for and commits exactly the others. For the TypeORM adapter a predicate counts by its truth
-- value, for the Mongoose adapter only if it returns `true` itself.
pub should_rollback_iff :
    (e : Err) (o : RollbackOnError)
    → PrototypesIn e o
    → (((typeorm_should_rollback e o ≡ some true) ↔ AsksRollback is_truthy e o)
        × ((typeorm_should_rollback e o ≡ some false) ↔ (¬ AsksRollback is_truthy e o)))
      × (((mongoose_should_rollback e o ≡ some true) ↔ AsksRollback is_true e o)
          × ((mongoose_should_rollback e o ≡ some false) ↔ (¬ AsksRollback is_true e o)))
unfolding typeorm_should_rollback mongoose_should_rollback
should_rollback_iff e o h = (decide_rollback_iff is_truthy e o h, decide_rollback_iff is_true e o h)

-- A predicate without a prototype, such as an arrow function, makes the decision throw in both
-- adapters, whatever the predicate would say, unless a criterion before it is met.
pub should_rollback_throws :
    (e : Err) (before after' : List Criterion) (is_instance : Err → Option Bool)
    (call : Err → Called)
    → All (HasPrototype e) before
    → ¬ AnyMeets is_truthy e before
    → ¬ AnyMeets is_true e before
    → is_instance e ≡ none
    → (typeorm_should_rollback e (several (before ++ callable is_instance call ∷ after')) ≡ none)
      × (mongoose_should_rollback e (several (before ++ callable is_instance call ∷ after')) ≡ none)
unfolding typeorm_should_rollback mongoose_should_rollback decide_rollback
should_rollback_throws e before after' is_instance call h no_truthy no_true throws_there = (
  any_criterion-throws is_truthy e before after' is_instance call h no_truthy throws_there,
  any_criterion-throws is_true e before after' is_instance call h no_true throws_there,
)
