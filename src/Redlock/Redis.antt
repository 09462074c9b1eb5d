-- ===== src/Redlock/Redis.antt =====
-- The Redis commands that the Lua scripts of packages/distribution-redlock call. Redis is not part
-- of the repository, so a node is a parameter with the documented behaviour of its commands.
use nestplatform.Base.{String, Option, none, some, Bool, false, true, ◌≡◌, str_eq, if◌then◌else◌}
use nestplatform.Base.Int.{ℤ, pos, ◌≤ℤ◌}

abbrev pub is_some : Option String → Bool
is_some none = false
is_some (some _) = true

pub record Redis : Type 1 where
  pub State : Type 0
  -- GET, EXISTS and DEL of one key.
  pub get : State → String → Option String
  pub exists : State → String → Bool
  pub del : State → String → State
  -- SET key value PX ttl; `none` is the error reply, which stops the script.
  pub set_px : State → String → String → ℤ → Option State
  pub exists-get : (s : State) (k : String) → exists s k ≡ is_some (get s k)
  pub get-del :
      (s : State) (k j : String) → get (del s k) j ≡ (if str_eq k j then none else get s j)
  pub set_px_accepts :
      (s : State) (k v : String) (ttl : ℤ)
      → pos 1 ≤ℤ ttl
      → (s' : State) × (set_px s k v ttl ≡ some s')
  pub get-set_px :
      (s : State) (k v : String) (ttl : ℤ) (s' : State)
      → set_px s k v ttl ≡ some s'
      → (j : String) → get s' j ≡ (if str_eq k j then some v else get s j)
