-- ===== src/Transaction/Rollback.antt =====
-- `shouldRollback` of packages/transactional-typeorm/src/index.ts and of
-- packages/transactional-mongoose/src/index.ts, and the option that it reads. What `instanceof` and
-- a call of an option say of an error is given with the option.
pub mod Matching
use nestplatform.Base.{
  ℕ, String, Option, none, some, Bool, true, false, ◌||◌, List, [], ◌∷◌, str_eq, if◌then◌else◌,
}

-- An error by its `name`, the name of its constructor, and what else tells it apart.
pub record Err : Type 0 where
  pub name : String
  pub constructor_name : String
  pub tag : ℕ

-- The `TypeError` that `instanceof` throws when its right side has no prototype.
abbrev pub type_error : Err
type_error = record { name = "TypeError"; constructor_name = "TypeError"; tag = 0 }

-- What calling an option with an error comes to.
pub data Called : Type 0 where
  exactly_true truthy falsy throws : Called

-- An element of the option: a string, a function, or another value, which matches nothing. For a
-- function `is_instance` is `error instanceof f`, and `none` where that throws: a class or a
-- `function` has a prototype, an arrow function has none.
pub data Criterion : Type 0 where
  named : String → Criterion
  callable : (Err → Option Bool) → (Err → Called) → Criterion
  other_value : Criterion

pub data RollbackOnError : Type 0 where
  not_given : RollbackOnError
  always : Bool → RollbackOnError
  single : Criterion → RollbackOnError
  several : List Criterion → RollbackOnError

abbrev pub criteria : RollbackOnError → List Criterion
criteria not_given = []
criteria (always b) = []
criteria (single c) = c ∷ []
criteria (several cs) = cs

-- `if (predicate(error))` of the TypeORM adapter, with its `catch`.
abbrev pub is_truthy : Called → Bool
is_truthy exactly_true = true
is_truthy truthy = true
is_truthy falsy = false
is_truthy throws = false

-- `if (predicate(error) === true)` of the Mongoose adapter, with its `catch`.
abbrev pub is_true : Called → Bool
is_true exactly_true = true
is_true truthy = false
is_true falsy = false
is_true throws = false

-- The loop over the options, for either test of a predicate's value; `none` is a `TypeError`.
unfoldable pub any_criterion : (Called → Bool) → Err → List Criterion → Option Bool
any_criterion accepts e [] = some false
any_criterion accepts e (named s ∷ cs) =
    if str_eq e.name s || str_eq e.constructor_name s then some true else any_criterion accepts e cs
any_criterion accepts e (callable is_instance call ∷ cs) =
    let rest = any_criterion accepts e cs in
    elim (is_instance e) [
      | none ↦ none
      | some true ↦ some true
      | some false ↦ if accepts (call e) then some true else rest
    ]
any_criterion accepts e (other_value ∷ cs) = any_criterion accepts e cs

unfoldable pub decide_rollback : (Called → Bool) → Err → RollbackOnError → Option Bool
decide_rollback accepts e not_given = some true
decide_rollback accepts e (always b) = some b
decide_rollback accepts e (single c) = any_criterion accepts e (c ∷ [])
decide_rollback accepts e (several cs) = any_criterion accepts e cs

unfoldable pub typeorm_should_rollback : Err → RollbackOnError → Option Bool
unfolding decide_rollback any_criterion
typeorm_should_rollback = decide_rollback is_truthy

unfoldable pub mongoose_should_rollback : Err → RollbackOnError → Option Bool
unfolding decide_rollback any_criterion
mongoose_should_rollback = decide_rollback is_true
