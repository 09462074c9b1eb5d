-- ===== src/Redlock/Scripts.antt =====
-- packages/distribution-redlock/src/redlock.scripts.ts: the three Lua scripts. A script runs
-- atomically on one node. It leaves a state and a reply, or no reply where an error of `SET`
-- stops it (Redis keeps what a stopped script wrote).
pub mod Frame
pub mod Laws
use nestplatform.Base.{
  ℕ, ◌+◌, String, Option, none, some, Bool, true, false, ◌||◌, List, [], ◌∷◌, str_eq, if◌then◌else◌,
  length,
}
use nestplatform.Base.Int.{ℤ}
use nestplatform.Redlock.Redis.{Redis}

-- `redis.call("get", key) == ARGV[1]` in Lua, where a missing key reads as `false`.
abbrev pub reads_as : Option String → String → Bool
reads_as none v = false
reads_as (some w) v = str_eq w v

module _ (r : Redis) where
  open r use {State, get, exists, del, set_px}

  -- The first loop of the acquire script.
  unfoldable pub any_exists : State → List String → Bool
  any_exists s [] = false
  any_exists s (k ∷ ks) = exists s k || any_exists s ks

  -- The second loop of the acquire and of the extend script; `false` where a SET failed.
  unfoldable pub set_all : List String → String → ℤ → State → State × Bool
  set_all [] v ttl s = (s, true)
  set_all (k ∷ ks) v ttl s = elim (set_px s k v ttl) [
    | none ↦ (s, false)
    | some s' ↦ set_all ks v ttl s'
  ]

  abbrev pub reply_all : List String → State × Bool → State × Option ℕ
  reply_all ks (s, true) = (s, some (length ks))
  reply_all ks (s, false) = (s, none)

  unfoldable pub acquire_script : List String → String → ℤ → State → State × Option ℕ
  acquire_script ks v ttl s =
      if any_exists s ks then (s, some 0) else reply_all ks (set_all ks v ttl s)

  -- The first loop of the extend script.
  unfoldable pub any_differs : State → List String → String → Bool
  any_differs s [] v = false
  any_differs s (k ∷ ks) v = if reads_as (get s k) v then any_differs s ks v else true

  unfoldable pub extend_script : List String → String → ℤ → State → State × Option ℕ
  extend_script ks v ttl s =
      if any_differs s ks v then (s, some 0) else reply_all ks (set_all ks v ttl s)

  -- The loop of the release script, with its count.
  unfoldable pub release_loop : List String → String → ℕ → State → State × Option ℕ
  release_loop [] v count s = (s, some count)
  release_loop (k ∷ ks) v count s =
      release_loop ks v (if reads_as (get s k) v then count + 1 else count)
        (if reads_as (get s k) v then del s k else s)

  unfoldable pub release_script : List String → String → State → State × Option ℕ
  unfolding release_loop
  release_script ks v s = release_loop ks v 0 s
