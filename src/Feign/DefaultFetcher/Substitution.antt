-- ===== src/Feign/DefaultFetcher/Substitution.antt =====
-- Path parameters, one after another and all at once.
use nestplatform.Base.{
  ◌≡◌, refl, ap, ◌∙◌, String, Option, none, some, List, [], ◌∷◌, str_eq, inl, inr, Bool-cases,
}
use nestplatform.Feign.Routes.{Text}
use nestplatform.Feign.Objects.{get_property}
use nestplatform.Feign.DefaultFetcher.{
  Piece, literal, param, replaced_piece, replace_all, replace_params,
}

module _ {V : Type 0} (encode : V → Text) where
  abbrev pub value_or_param : String → Option V → Piece
  value_or_param k none = param k
  value_or_param k (some v) = literal (encode v)

  abbrev pub substituted : List (String × V) → Piece → Piece
  substituted params (literal t) = literal t
  substituted params (param k) = value_or_param k (get_property k params)

  -- All parameters at once.
  abbrev pub substitute : List (String × V) → List Piece → List Piece
  substitute params [] = []
  substitute params (p ∷ ps) = substituted params p ∷ substitute params ps

  substituted-replaced :
      (k : String) (v : V) (params : List (String × V)) (p : Piece)
      → substituted params (replaced_piece k (encode v) p) ≡ substituted ((k, v) ∷ params) p
  unfolding get_property
  substituted-replaced k v params (literal t) = refl
  substituted-replaced k v params (param j) = elim (Bool-cases (str_eq k j)) [
    | inl same ↦ rw same refl
    | inr other ↦ rw other refl
  ]

  substitute-replace_all :
      (k : String) (v : V) (params : List (String × V)) (ps : List Piece)
      → substitute params (replace_all k (encode v) ps) ≡ substitute ((k, v) ∷ params) ps
  unfolding replace_all get_property
  substitute-replace_all k v params [] = refl
  substitute-replace_all k v params (p ∷ ps) =
      ap (λ q. q ∷ substitute params (replace_all k (encode v) ps))
        (substituted-replaced k v params p)
      ∙ ap (◌∷◌ (substituted ((k, v) ∷ params) p)) (substitute-replace_all k v params ps)

  substitute-nil : (ps : List Piece) → ps ≡ substitute [] ps
  unfolding get_property
  substitute-nil [] = refl
  substitute-nil (literal t ∷ ps) = ap (◌∷◌ (literal t)) (substitute-nil ps)
  substitute-nil (param k ∷ ps) = ap (◌∷◌ (param k)) (substitute-nil ps)

  -- Replacing the parameters one after another gives what replacing them all at once gives: a value
  -- never takes the place of another parameter, and one without a value stays as it is.
  pub replace_params-substitute :
      (params : List (String × V)) (ps : List Piece)
      → replace_params encode params ps ≡ substitute params ps
  unfolding replace_params
  replace_params-substitute [] ps = substitute-nil ps
  replace_params-substitute ((k, v) ∷ params) ps =
      replace_params-substitute params (replace_all k (encode v) ps)
      ∙ substitute-replace_all k v params ps
