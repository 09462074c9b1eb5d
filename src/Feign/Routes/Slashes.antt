-- ===== src/Feign/Routes/Slashes.antt =====
-- Where a joined path has slashes.
use nestplatform.Base.{
  ℕ, ◌≡◌, refl, ap, ◌∙◌, some, Bool, false, ◌&&◌, List, [], ◌∷◌, ◌++◌, ◌==◌, inl, inr, Bool-cases,
  if◌then◌else◌,
}
use nestplatform.Feign.Routes.{
  Text, slash, is_empty, strip_leading, strip_trailing, stripped, path_parts, join_parts,
  join_paths, final_path,
}

abbrev pub starts_with_slash : Text → Bool
starts_with_slash [] = false
starts_with_slash (c ∷ cs) = c == slash

abbrev pub ends_with_slash : Text → Bool
ends_with_slash [] = false
ends_with_slash (c ∷ []) = c == slash
ends_with_slash (c ∷ d ∷ cs) = ends_with_slash (d ∷ cs)

strip_leading_starts : (p : Text) → starts_with_slash (strip_leading p) ≡ false
unfolding strip_leading
strip_leading_starts [] = refl
strip_leading_starts (c ∷ cs) = elim (Bool-cases (c == slash)) [
  | inl is ↦ rw is (strip_leading_starts cs)
  | inr other ↦ rw (other, strip_leading) other
]

strip_trailing_starts :
    (p : Text) → starts_with_slash p ≡ false → starts_with_slash (strip_trailing p) ≡ false
unfolding strip_trailing
strip_trailing_starts [] h = refl
strip_trailing_starts (c ∷ cs) h = rw (h, strip_trailing) h

ends_after :
    (c : ℕ) (rest : Text)
    → ends_with_slash rest ≡ false
    → ends_with_slash (if (c == slash) && is_empty rest then [] else c ∷ rest) ≡ false
ends_after c [] h = elim (Bool-cases (c == slash)) [
  | inl is ↦ rw is refl
  | inr other ↦ rw other other
]
ends_after c (d ∷ ds) h = elim (Bool-cases (c == slash)) [
  | inl is ↦ rw is h
  | inr other ↦ rw other h
]

strip_trailing_ends : (p : Text) → ends_with_slash (strip_trailing p) ≡ false
unfolding strip_trailing
strip_trailing_ends [] = refl
strip_trailing_ends (c ∷ cs) = ends_after c (strip_trailing cs) (strip_trailing_ends cs)

stripped_starts : (p : Text) → starts_with_slash (stripped p) ≡ false
stripped_starts p = strip_trailing_starts (strip_leading p) (strip_leading_starts p)

starts-append :
    (p q : Text)
    → is_empty p ≡ false
    → starts_with_slash p ≡ false
    → starts_with_slash (p ++ q) ≡ false
starts-append [] q h s = cc
starts-append (c ∷ cs) q h s = s

ends-cons :
    (c : ℕ) (q : Text)
    → is_empty q ≡ false
    → ends_with_slash q ≡ false
    → ends_with_slash (c ∷ q) ≡ false
ends-cons c [] h s = cc
ends-cons c (d ∷ ds) h s = s

ends-append :
    (p q : Text) → is_empty q ≡ false → ends_with_slash q ≡ false → ends_with_slash (p ++ q) ≡ false
ends-append [] q h s = s
ends-append (c ∷ []) q h s = ends-cons c q h s
ends-append (c ∷ d ∷ cs) q h s = ends-append (d ∷ cs) q h s

-- The path of two texts: both between one slash, or the one that is left.
abbrev pub between : Text → Text → Text
between p q = if is_empty p then q else if is_empty q then p else p ++ slash ∷ q

between_slashes :
    (p q : Text)
    → starts_with_slash p ≡ false
    → starts_with_slash q ≡ false
    → ends_with_slash p ≡ false
    → ends_with_slash q ≡ false
    → (starts_with_slash (between p q) ≡ false) × (ends_with_slash (between p q) ≡ false)
between_slashes [] q sp sq ep eq = (sq, eq)
between_slashes (c ∷ cs) [] sp sq ep eq = (sp, ep)
between_slashes (c ∷ cs) (d ∷ ds) sp sq ep eq =
    (sp, ends-append (c ∷ cs) (slash ∷ d ∷ ds) refl (ends-cons slash (d ∷ ds) refl eq))

abbrev kept : Text → List Text → List Text
kept p ps = if is_empty p then ps else p ∷ ps

joined_two : (p q : Text) → join_parts (kept p (kept q [])) ≡ between p q
unfolding join_parts
joined_two [] [] = refl
joined_two [] (d ∷ ds) = refl
joined_two (c ∷ cs) [] = refl
joined_two (c ∷ cs) (d ∷ ds) = refl

join_paths_two :
    (p q : Text) → join_paths (some p ∷ some q ∷ []) ≡ between (stripped p) (stripped q)
unfolding join_paths path_parts join_parts
join_paths_two p q = joined_two (stripped p) (stripped q)

slash_then :
    (rest : Text) → ends_with_slash rest ≡ false → ends_with_slash (slash ∷ rest) ≡ is_empty rest
slash_then [] h = refl
slash_then (d ∷ ds) h = h

-- A client with a path that is not empty: the path of a method is one slash and a rest, which neither
-- starts nor ends with a slash. The rest is the client's path and the method's, both without the
-- slashes at their ends, with one slash between them, or the one of them that has something else than
-- slashes, or nothing where neither has; the whole path ends with a slash in that last case only.
pub final_path_slashes :
    (client path : Text)
    → is_empty client ≡ false
    → (rest : Text) × (final_path (some client) path ≡ slash ∷ rest)
      × (starts_with_slash rest ≡ false)
      × (ends_with_slash rest ≡ false)
      × (rest ≡ between (stripped client) (stripped path))
      × (ends_with_slash (final_path (some client) path) ≡ is_empty rest)
unfolding final_path
final_path_slashes [] path h = cc
final_path_slashes (c ∷ cs) path h =
    let (starts, ends) =
      between_slashes (stripped (c ∷ cs)) (stripped path) (stripped_starts (c ∷ cs))
        (stripped_starts path) (strip_trailing_ends (strip_leading (c ∷ cs)))
        (strip_trailing_ends (strip_leading path)) in
    let rest = between (stripped (c ∷ cs)) (stripped path) in
    let joined = ap (◌∷◌ slash) (join_paths_two (c ∷ cs) path) in
    (rest, joined, starts, ends, refl, ap ends_with_slash joined ∙ slash_then rest ends)
