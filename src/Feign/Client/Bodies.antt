-- ===== src/Feign/Client/Bodies.antt =====
-- The body that a decorated method sends.
use nestplatform.Base.{ℕ, ◌≡◌, refl, ap, String, some, List, [], ◌∷◌}
use nestplatform.Feign.Objects.{
  Arg, nullish, other_value, plain, array, units, spread, arg_at, own_properties, merge_arg,
  merge_by_indexes, merge_indexes,
}
use nestplatform.Feign.Client.{request_body}

module _ {V : Type 0} (index_key : ℕ → String) where
  merge_arg_own : (a : Arg V) → merge_arg index_key [] a ≡ spread [] (own_properties index_key a)
  unfolding spread
  merge_arg_own nullish = refl
  merge_arg_own other_value = refl
  merge_arg_own (plain o) = refl
  merge_arg_own (array vs) = refl
  merge_arg_own (units vs) = refl

  -- With one `@Body()` the body is a plain object of the argument's own properties, whatever the
  -- argument is: an array or a text is sent as an object of its indexes, and a `FormData`, a `Blob`,
  -- `null` and `undefined` as the empty object.
  pub request_body_own :
      (i : ℕ) (args : List (Arg V))
      → request_body index_key (i ∷ []) args
        ≡ some (spread [] (own_properties index_key (arg_at args i)))
  unfolding request_body merge_by_indexes merge_indexes
  request_body_own i args = ap some (merge_arg_own (arg_at args i))
