-- ===== src/Common/Stringify.antt =====
-- packages/common/src/common.helpers.ts: `stringifyMethod`. A text is the list of its units; an
-- argument that `String` cannot turn into a text, such as an object without a prototype, is `none`.
use nestplatform.Base.{
  ℕ, zero, suc, Option, none, some, List, [], ◌∷◌, ◌++◌, length, ltb, if◌then◌else◌,
}

abbrev pub Text : Type 0
Text = List ℕ

abbrev pub take : ℕ → Text → Text
take zero t = []
take (suc n) [] = []
take (suc n) (c ∷ t) = c ∷ take n t

abbrev pub dots : Text
dots = b'.' ∷ b'.' ∷ b'.' ∷ []

-- `arg.length > 10 ? arg.substring(0, 9) + "..." : arg`
unfoldable pub shortened : Text → Text
shortened t = if ltb 10 (length t) then take 9 t ++ dots else t

-- `.map(String)`, which throws at the first argument that it cannot turn into a text.
abbrev pub all_texts : List (Option Text) → Option (List Text)
all_texts [] = some []
all_texts (none ∷ args) = none
all_texts (some t ∷ args) = elim (all_texts args) [
  | none ↦ none
  | some ts ↦ some (shortened t ∷ ts)
]

-- `.join(", ")`
abbrev pub joined : List Text → Text
joined [] = []
joined (t ∷ []) = t
joined (t ∷ u ∷ ts) = t ++ (b',' ∷ b' ' ∷ joined (u ∷ ts))

abbrev pub in_brackets : Text → Option (List Text) → Option Text
in_brackets name none = none
in_brackets name (some ts) = some (name ++ (b'(' ∷ (joined ts ++ b')' ∷ [])))

unfoldable pub stringify_method : Text → List (Option Text) → Option Text
unfolding shortened
stringify_method name args = in_brackets name (all_texts args)
