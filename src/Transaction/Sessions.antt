-- ===== src/Transaction/Sessions.antt =====
-- The helpers of packages/transactional-mongoose/src/index.ts that put the session of a transaction
-- into the arguments of a model's method. An argument that is an object and no array is known by its
-- `session` and by a number for its other fields, 0 for none.
use nestplatform.Base.{ℕ, zero, suc, ◌≡◌, refl, ap, Option, none, some, List, [], ◌∷◌}

pub data Argument : Type 0 where
  plain_object : ℕ → Option ℕ → Argument
  other_value : ℕ → Argument
  undefined_value : Argument

-- `{ ...options, session: options.session || session }`, where another value has no options.
abbrev pub with_session : ℕ → Argument → Argument
with_session s (plain_object fields none) = plain_object fields (some s)
with_session s (plain_object fields (some q)) = plain_object fields (some q)
with_session s (other_value n) = plain_object 0 (some s)
with_session s undefined_value = plain_object 0 (some s)

-- Assigning behind the end of an array leaves `undefined` in between.
unfoldable pub append_session_to_options_arg : ℕ → ℕ → List Argument → List Argument
append_session_to_options_arg s zero [] = with_session s undefined_value ∷ []
append_session_to_options_arg s zero (a ∷ args) = with_session s a ∷ args
append_session_to_options_arg s (suc n) [] = undefined_value ∷ append_session_to_options_arg s n []
append_session_to_options_arg s (suc n) (a ∷ args) = a ∷ append_session_to_options_arg s n args

unfoldable pub append_session_to_create_args : ℕ → List Argument → List Argument
unfolding append_session_to_options_arg
append_session_to_create_args s args = append_session_to_options_arg s 1 args

with_session_idem : (s q : ℕ) (a : Argument) → with_session q (with_session s a) ≡ with_session s a
with_session_idem s q (plain_object fields none) = refl
with_session_idem s q (plain_object fields (some p)) = refl
with_session_idem s q (other_value n) = refl
with_session_idem s q undefined_value = refl

-- The session that is in the arguments first stays: appending another one at the same place, in a
-- transaction within, changes nothing, whatever the arguments are.
pub append_session_idem :
    (s q n : ℕ) (args : List Argument)
    → append_session_to_options_arg q n (append_session_to_options_arg s n args)
      ≡ append_session_to_options_arg s n args
unfolding append_session_to_options_arg
append_session_idem s q zero [] = refl
append_session_idem s q zero (a ∷ args) = ap (λ b. b ∷ args) (with_session_idem s q a)
append_session_idem s q (suc n) [] = ap (◌∷◌ undefined_value) (append_session_idem s q n [])
append_session_idem s q (suc n) (a ∷ args) = ap (◌∷◌ a) (append_session_idem s q n args)
