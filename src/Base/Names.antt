-- ===== src/Base/Names.antt =====
-- Lists of names: a key among them, and no name twice.
use Prim.Native.String.{String}
use mathlib.Core.Bool.{Bool, true, false, not, ◌&&◌, ◌||◌}
use mathlib.Core.List.{List, [], ◌∷◌}
use text.Mathlib.Text.{◌==◌ as str_eq}

abbrev pub mem_key : String → List String → Bool
mem_key j [] = false
mem_key j (k ∷ ks) = str_eq k j || mem_key j ks

-- No key is named twice.
abbrev pub distinct : List String → Bool
distinct [] = true
distinct (k ∷ ks) = not (mem_key k ks) && distinct ks
