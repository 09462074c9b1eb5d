-- ===== src/Feign/Routes.antt =====
-- `joinPaths` of packages/feign/src/feign/feign-feature.decoration.ts. A text is the list of its
-- UTF-16 units.
pub mod Slashes
use nestplatform.Base.{
  ℕ, Option, none, some, Bool, true, false, not, ◌&&◌, List, [], ◌∷◌, ◌++◌, ◌==◌, if◌then◌else◌,
}

abbrev pub Text : Type 0
Text = List ℕ

abbrev pub slash : ℕ
slash = 47

abbrev pub is_empty : Text → Bool
is_empty [] = true
is_empty (c ∷ cs) = false

-- `p.replace(/^\/+|\/+$/g, "")`, from either end.
unfoldable pub strip_leading : Text → Text
strip_leading [] = []
strip_leading (c ∷ cs) = let rest = strip_leading cs in if c == slash then rest else c ∷ cs

unfoldable pub strip_trailing : Text → Text
strip_trailing [] = []
strip_trailing (c ∷ cs) =
    let rest = strip_trailing cs in if (c == slash) && is_empty rest then [] else c ∷ rest

abbrev pub stripped : Text → Text
stripped p = strip_trailing (strip_leading p)

-- The two filters and the map between them; an empty part and a missing one are left out alike.
unfoldable pub path_parts : List (Option Text) → List Text
unfolding strip_leading strip_trailing
path_parts [] = []
path_parts (none ∷ ps) = path_parts ps
path_parts (some p ∷ ps) =
    let rest = path_parts ps in if is_empty (stripped p) then rest else stripped p ∷ rest

unfoldable pub join_parts : List Text → Text
join_parts [] = []
join_parts (p ∷ []) = p
join_parts (p ∷ q ∷ ps) = p ++ slash ∷ join_parts (q ∷ ps)

unfoldable pub join_paths : List (Option Text) → Text
unfolding path_parts join_parts
join_paths ps = join_parts (path_parts ps)

-- `clientOptions.path ? `/${this.joinPaths(clientOptions.path, path)}` : path`
unfoldable pub final_path : Option Text → Text → Text
unfolding join_paths
final_path none path = path
final_path (some []) path = path
final_path (some (c ∷ cs)) path = slash ∷ join_paths (some (c ∷ cs) ∷ some path ∷ [])
