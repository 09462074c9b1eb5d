-- ===== src/AdvisoryLock/Examples.antt =====
-- Tests, and the theorems on advisory locks at concrete inputs: a server that lists the holds.
use nestplatform.Base.{
  ℕ, suc, ◌+◌, ◌-◌, ◌≡◌, refl, ap, sym, ◌∙◌, ◌⊎◌, String, Option, none, some, Bool, true, false,
  not, ◌&&◌, List, [], ◌∷◌, ◌==◌, if◌then◌else◌, arith, count_p, Bool-cases, inl, inr, str_eq,
}
use nestplatform.AdvisoryLock.{
  AdvisoryServer, Tried, granted, refused, failed, resource_locked_exception, throw, PgLock, World,
  lock_each, acquire, release,
}
use nestplatform.AdvisoryLock.Sessions.{
  times, acquire_holds, acquire_leaks, release-acquire_advisory,
}

abbrev Holds : Type 0
Holds = List (ℕ × ℕ)

abbrev holds : Holds → ℕ → ℕ → ℕ
holds s d k = count_p (λ p. p.0 == d && p.1 == k) s

abbrev others_hold : ℕ → ℕ → Holds → Bool
others_hold c k [] = false
others_hold c k ((d, j) ∷ s) = if j == k && not (c == d) then true else others_hold c k s

abbrev try : ℕ → ℕ → Holds → Holds × Tried
try c k s = if others_hold c k s then (s, refused) else ((c, k) ∷ s, granted)

abbrev drop_hold : ℕ → ℕ → Holds → Holds
drop_hold c k [] = []
drop_hold c k ((d, j) ∷ s) = if d == c && j == k then s else (d, j) ∷ drop_hold c k s

abbrev outcome : Holds × Tried → Tried
outcome x = x.1

try-granted :
    (c k : ℕ) (s s' : Holds)
    → try c k s ≡ (s', granted)
    → (others_hold c k s ≡ false) × (s' ≡ (c, k) ∷ s)
try-granted c k s s' h = elim (Bool-cases (others_hold c k s)) [
  | inl there ↦ absurd (ground arith)
  | inr free ↦ (free, sym (ground arith))
]

granted_reads :
    (c k : ℕ) (s s' : Holds)
    → try c k s ≡ (s', granted)
    → (d j : ℕ) → holds s' d j ≡ (if c == d && k == j then holds s d j + 1 else holds s d j)
granted_reads c k s s' h d j = ap (λ t. holds t d j) (try-granted c k s s' h).1 ∙ ground arith

refused_reads :
    (c k : ℕ) (s s' : Holds) → try c k s ≡ (s', refused) → (d j : ℕ) → holds s' d j ≡ holds s d j
refused_reads c k s s' h d j = elim (Bool-cases (others_hold c k s)) [
  | inl there ↦ ground arith
  | inr free ↦ absurd (ground arith)
]

failed_reads :
    (c k : ℕ) (s s' : Holds) → try c k s ≡ (s', failed) → (d j : ℕ) → holds s' d j ≡ holds s d j
failed_reads c k s s' h d j = elim (Bool-cases (others_hold c k s)) [
  | inl there ↦ absurd (ground arith)
  | inr free ↦ absurd (ground arith)
]

none_of_others :
    (c k : ℕ) (s : Holds) → others_hold c k s ≡ false → (d : ℕ) → (c == d) ≡ false → holds s d k ≡ 0
none_of_others c k [] h d other = refl
none_of_others c k ((e, j) ∷ s) h d other = elim (Bool-cases (j == k && not (c == e))) [
  | inl there ↦ absurd (ground arith)
  | inr off ↦
      let rest =
        none_of_others c k s (sym (ap (λ b. if b then true else others_hold c k s) off) ∙ h) d
          other in
      ground (arith, rest)
]

drop_first :
    (c k e i d j n : ℕ)
    → (e == c && i == k) ≡ true
    → n ≡ (
        if c == d && k == j
        then (if e == d && i == j then suc n else n) - 1
        else (if e == d && i == j then suc n else n))
drop_first c k e i d j n here = ground arith

keep_first :
    (c k e i d j n m : ℕ)
    → (e == c && i == k) ≡ false
    → m ≡ (if c == d && k == j then n - 1 else n)
    → (if e == d && i == j then suc m else m) ≡ (
        if c == d && k == j
        then (if e == d && i == j then suc n else n) - 1
        else (if e == d && i == j then suc n else n))
keep_first c k e i d j n m elsewhere rest = ground arith

dropped_reads :
    (c k : ℕ) (s : Holds) (d j : ℕ)
    → holds (drop_hold c k s) d j ≡ (if c == d && k == j then holds s d j - 1 else holds s d j)
dropped_reads c k [] d j = ground arith
dropped_reads c k ((e, i) ∷ s) d j = elim (Bool-cases (e == c && i == k)) [
  | inl here ↦ rw here (drop_first c k e i d j (holds s d j) here)
  | inr elsewhere ↦ rw elsewhere (
      keep_first c k e i d j (holds s d j) (holds (drop_hold c k s) d j) elsewhere
        (dropped_reads c k s d j))
]

abbrev read_or : Holds → Option Holds → Holds
read_or s none = s
read_or s (some t) = t

abbrev listing : AdvisoryServer
listing = record {
  State = Holds;
  held = holds;
  try_lock = try;
  unlock = λ c k s. some (drop_hold c k s);
  held-granted = granted_reads;
  held-refused = refused_reads;
  held-failed = failed_reads;
  granted_alone = λ c k s s' h d other. none_of_others c k s (try-granted c k s s' h).0 d other;
  held-unlock =
      λ c k s s' h d j. ap (λ t. holds (read_or s t) d j) (sym h) ∙ dropped_reads c k s d j;
}

abbrev hash : String → ℕ
hash r = if str_eq r "a" then 1 else 2

abbrev start : World listing hash
start = record { locks = (9, 2) ∷ []; idle = []; events = [] }

abbrev locked : World listing hash
locked = record { locks = (3, 1) ∷ (9, 2) ∷ []; idle = []; events = [] }

abbrev handle : PgLock
handle = record { client = 3; resources = "a" ∷ []; expiration = 105 }

acquire_holds_example :
    (holds ((3, 1) ∷ (9, 2) ∷ []) 9 1 ≡ 0)
    × ((false ≡ true)
        ⊎ ((times listing hash 1 ("a" ∷ []) ≡ 0) ⊎ (holds ((3, 1) ∷ (9, 2) ∷ []) 9 1 ≡ 0)))
unfolding acquire lock_each
acquire_holds_example = acquire_holds listing hash 3 100 5 ("a" ∷ []) start locked handle refl 9 1

-- The second resource is held by session 9: session 3 keeps the first one and is idle.
acquire_leaks_example :
    (acquire listing hash 3 100 ("a" ∷ "b" ∷ []) 5 start
      ≡ (record locked { idle = 3 ∷ [] }, throw resource_locked_exception))
    × ((k : ℕ)
        → holds ((3, 1) ∷ (9, 2) ∷ []) 3 k
          ≡ holds ((9, 2) ∷ []) 3 k + times listing hash k ("a" ∷ []))
unfolding lock_each
acquire_leaks_example =
    acquire_leaks listing hash 3 100 5 ("a" ∷ []) [] "b" start ((3, 1) ∷ (9, 2) ∷ [])
      ((3, 1) ∷ (9, 2) ∷ []) refl refl

release-acquire_advisory_example : holds (release listing hash handle locked).locks 3 1 ≡ 0
unfolding acquire lock_each
release-acquire_advisory_example =
    release-acquire_advisory listing hash 3 100 5 ("a" ∷ []) start locked handle
      (λ e j t. (drop_hold e j t, refl)) refl 3 1
