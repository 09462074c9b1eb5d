-- ===== src/Fetch/Segments.antt =====
-- The expression `/\/:([^/]+)/g` of `resolvePathParams` in packages/feign/src/fetch/fetch.service.ts:
-- the segments of a path, as texts of code points. `string_of` makes strings of them.
use nestplatform.Base.{
  ℕ, ◌≡◌, refl, ap, String, false, List, [], ◌∷◌, ◌++◌, map, All, ◌==◌, ==_iff, if◌then◌else◌, inl,
  inr, Bool-cases,
}
use nestplatform.Feign.Routes.{Text, slash}
use nestplatform.Fetch.{Segment, literal, param, PathParam, Result, resolve_path_params}

abbrev pub prepended : ℕ → List Text → List Text
prepended c [] = (c ∷ []) ∷ []
prepended c (t ∷ ts) = (c ∷ t) ∷ ts

-- The texts between slashes.
unfoldable pub slash_separated : Text → List Text
slash_separated [] = [] ∷ []
slash_separated (c ∷ cs) =
    let rest = slash_separated cs in if c == slash then [] ∷ rest else prepended c rest

module _ (string_of : Text → String) where
  -- A colon and at least one more character behind a slash are a placeholder.
  abbrev pub segment_of : Text → Segment
  segment_of [] = literal (string_of [])
  segment_of (c ∷ []) = literal (string_of (c ∷ []))
  segment_of (c ∷ d ∷ ds) =
      if c == 58 then param (string_of (d ∷ ds)) else literal (string_of (c ∷ d ∷ ds))

  -- What stands before the first slash is no placeholder.
  abbrev pub behind_first : List Text → List Segment
  behind_first [] = []
  behind_first (t ∷ ts) = literal (string_of t) ∷ map segment_of ts

  unfoldable pub resolve_path :
      (String → Result String) → (String → PathParam) → Text → Result (List String)
  unfolding slash_separated resolve_path_params
  resolve_path encode params path =
      resolve_path_params encode params (behind_first (slash_separated path))

abbrev pub with_slashes : List Text → Text
with_slashes [] = []
with_slashes (t ∷ []) = t
with_slashes (t ∷ u ∷ ts) = t ++ slash ∷ with_slashes (u ∷ ts)

abbrev pub NoSlash : Text → Type 0
NoSlash t = All (λ c. (c == slash) ≡ false) t

abbrev pub Parts : List Text → Text → Type 0
Parts ts p = All NoSlash ts × (with_slashes ts ≡ p) × (¬ (ts ≡ []))

Parts-slash : (ts : List Text) (p : Text) → Parts ts p → Parts ([] ∷ ts) (slash ∷ p)
Parts-slash [] p (clean, same, filled) = absurd (filled refl)
Parts-slash (t ∷ ts) p (clean, same, filled) = ((tt, clean), ap (◌∷◌ slash) same, λ e. cc)

Parts-other :
    (c : ℕ) (ts : List Text) (p : Text)
    → (c == slash) ≡ false
    → Parts ts p
    → Parts (prepended c ts) (c ∷ p)
Parts-other c [] p other (clean, same, filled) = absurd (filled refl)
Parts-other c (t ∷ []) p other (clean, same, filled) =
    (((other, clean.0), clean.1), ap (◌∷◌ c) same, λ e. cc)
Parts-other c (t ∷ u ∷ ts) p other (clean, same, filled) =
    (((other, clean.0), clean.1), ap (◌∷◌ c) same, λ e. cc)

-- The segments of a path have no slashes, and the path is what they give with slashes between them.
pub slash_separated-Parts : (p : Text) → Parts (slash_separated p) p
unfolding slash_separated
slash_separated-Parts [] = ((tt, tt), refl, λ e. cc)
slash_separated-Parts (c ∷ cs) = elim (Bool-cases (c == slash)) [
  | inl is ↦
      rw (is, slash_separated, (==_iff c slash).0 is)
        (Parts-slash (slash_separated cs) cs (slash_separated-Parts cs))
  | inr other ↦
      rw (other, slash_separated)
        (Parts-other c (slash_separated cs) cs other (slash_separated-Parts cs))
]
