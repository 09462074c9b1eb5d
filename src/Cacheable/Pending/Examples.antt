-- ===== src/Cacheable/Pending/Examples.antt =====
-- Two calls of one key at the same time.
use nestplatform.Base.{ℕ, ◌≡◌, refl, [], ◌∷◌}
use nestplatform.Cacheable.Pending.{
  Lookups, no_lookups, fetch_cached_value, settle_promise, resume, calls, settles, resumes,
  LookupSteps, done, more,
}
use nestplatform.Cacheable.Pending.Sharing.{Inv, lookups-Inv}

abbrev asked_once : Lookups ℕ
asked_once = fetch_cached_value "a" no_lookups

abbrev asked_twice : Lookups ℕ
asked_twice = fetch_cached_value "a" asked_once

abbrev looked_up : Lookups ℕ
looked_up = settle_promise 0 5 asked_twice

-- The second call goes on first.
abbrev one_left : Lookups ℕ
one_left = resume "a" (("a", 0) ∷ []) looked_up

one_lookup : (one_left.lookups "a" ≡ 1) × (one_left.waiting ≡ ("a", 0) ∷ [])
unfolding fetch_cached_value settle_promise resume no_lookups
one_lookup = (refl, refl)

run : LookupSteps no_lookups one_left
unfolding fetch_cached_value settle_promise resume no_lookups
run = more no_lookups asked_once one_left (calls no_lookups "a") (
    more asked_once asked_twice one_left (calls asked_once "a") (
      more asked_twice looked_up one_left (settles asked_twice 0 5 refl) (
        more looked_up one_left one_left (resumes looked_up [] (("a", 0) ∷ []) "a" 0 5 refl refl)
          (done one_left))))

lookups-Inv_example : Inv one_left
lookups-Inv_example = lookups-Inv one_left run
