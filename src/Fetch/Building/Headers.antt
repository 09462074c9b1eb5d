-- ===== src/Fetch/Building/Headers.antt =====
-- Which headers a request carries, and which slashes of a URL stay.
use nestplatform.Base.{
  ℕ, ◌≡◌, refl, ap, ◌∙◌, String, false, [], ◌∷◌, ◌++◌, ◌==◌, All, inl, inr, Bool-cases,
}
use nestplatform.Feign.Routes.{Text, slash}
use nestplatform.Feign.Objects.{spread, get_property}
use nestplatform.Feign.Objects.Merging.{or_else, last_property, get-spread, or_else-none}
use nestplatform.Fetch.Building.{
  FetchHeaders, listed_headers, lowered, merge_headers, collapse_first,
}

-- A request carries the header of its options, and that of the configuration where the options do not
-- have it, names in any case; of headers that are given as a `Headers` it carries none.
pub get-merge_headers :
    (lower : String → String) (k : String) (a b : FetchHeaders)
    → get_property k (merge_headers lower a b)
      ≡ or_else
          (last_property k (lowered lower (listed_headers b)))
          (last_property k (lowered lower (listed_headers a)))
unfolding merge_headers get_property
get-merge_headers lower k a b =
    get-spread k (spread [] (lowered lower (listed_headers a))) (lowered lower (listed_headers b))
    ∙ ap (or_else (last_property k (lowered lower (listed_headers b)))) (
        get-spread k [] (lowered lower (listed_headers a))
        ∙ or_else-none (last_property k (lowered lower (listed_headers a))))

-- The two slashes behind a scheme stay, and the search goes on behind them.
collapse_first-scheme :
    (scheme rest : Text) (c : ℕ)
    → All (λ d. (d == slash) ≡ false) scheme
    → (c == slash) ≡ false
    → collapse_first (scheme ++ 58 ∷ slash ∷ slash ∷ c ∷ rest)
      ≡ scheme ++ 58 ∷ slash ∷ slash ∷ collapse_first (c ∷ rest)
unfolding collapse_first
collapse_first-scheme [] rest c h other = rw other refl
collapse_first-scheme (s ∷ []) rest c h other = elim (Bool-cases (s == 58)) [
  | inl colon ↦ rw (colon, other) refl
  | inr letter ↦ rw (letter, other) refl
]
collapse_first-scheme (s ∷ t ∷ ss) rest c h other =
    let rest_stays = collapse_first-scheme (t ∷ ss) rest c h.1 other in
    elim (Bool-cases (s == 58)) [
      | inl colon ↦ rw colon (ap (◌∷◌ s) rest_stays)
      | inr letter ↦ rw (letter, h.1.0) (ap (◌∷◌ s) rest_stays)
    ]
