-- ===== src/Fetch/Retries.antt =====
-- What `request` comes to: the attempts that were made, and which errors stop it.
use mathlib.Core.Path.{subst}
use nestplatform.Base.{
  ℕ, zero, suc, ◌≤◌, ◌<◌, ◌≡◌, refl, ap, sym, ◌∙◌, ◌⊎◌, String, Bool, true, false, List, arith, inl,
  inr, Bool-cases,
}
use nestplatform.Base.Int.{pos}
use nestplatform.Fetch.{
  Thrown, fetch_exception, abort_error, undefined_value, plain_error, Result, ok, throw,
  is_retryable, caught, Transport, run_request, execute_request, retried, retry_loop, request,
}

Result-cases : {A : Type 0} (x : Result A) → ((a : A) × (x ≡ ok a)) ⊎ ((e : Thrown) × (x ≡ throw e))
Result-cases (ok a) = inl (a, refl)
Result-cases (throw e) = inr (e, refl)

abbrev again_of : {A : Type 0} → Result A → Bool
again_of (ok a) = false
again_of (throw e) = is_retryable e

module _ {W Value : Type 0} (delay : W → W) (execute : W → W × Result Value) where
  -- Attempts that failed in a way that is retried, with a delay after each.
  pub data Failures : ℕ → W → W → Type 0 where
    here : (w : W) → Failures 0 w w
    failed :
        (n : ℕ) (w u : W) (e : Thrown)
        → (execute w).1 ≡ throw e
        → is_retryable e ≡ true
        → Failures n (delay (execute w).0) u
        → Failures (suc n) w u

  -- The attempt from `u` is the last one: it returned, its error is not retried, or no retry is left.
  abbrev pub IsLast : ℕ → ℕ → Result Value → Type 0
  IsLast made allowed (ok v) = made ≤ allowed
  IsLast made allowed (throw e) = (made ≤ allowed) × ((is_retryable e ≡ false) ⊎ (made ≡ allowed))

  pub record Requested (allowed : ℕ) (w : W) (x : W × Result Value) : Type 0 where
    pub made : ℕ
    pub before : W
    pub failures : Failures made w before
    pub last : execute before ≡ x
    pub ends : IsLast made allowed x.1

  IsLast-suc :
      (made allowed : ℕ) (r : Result Value)
      → IsLast made allowed r
      → IsLast (suc made) (suc allowed) r
  IsLast-suc made allowed (ok v) h = omega arith
  IsLast-suc made allowed (throw e) (h, inl final) = (omega arith, inl final)
  IsLast-suc made allowed (throw e) (h, inr all) = (omega arith, inr (omega arith))

  at_once : (n : ℕ) (w : W) → IsLast 0 n (execute w).1 → Requested n w (execute w)
  at_once n w h = record { made = 0; before = w; failures = here w; last = refl; ends = h }

  Requested-failed :
      (n : ℕ) (w : W) (e : Thrown) (x : W × Result Value)
      → (execute w).1 ≡ throw e
      → is_retryable e ≡ true
      → Requested n (delay (execute w).0) x
      → Requested (suc n) w x
  Requested-failed n w e x threw again r = record {
    made = suc r.made;
    before = r.before;
    failures = failed r.made w r.before e threw again r.failures;
    last = r.last;
    ends = IsLast-suc r.made n x.1 r.ends;
  }

  retried_ok : (x y : W × Result Value) (v : Value) → x.1 ≡ ok v → retried delay execute x y ≡ x
  retried_ok (w, ok a) y v h = refl
  retried_ok (w, throw e) y v h = cc

  retried_again :
      (x y : W × Result Value) (e : Thrown)
      → x.1 ≡ throw e
      → is_retryable e ≡ true
      → retried delay execute x y ≡ y
  retried_again (w, ok a) y e h again = cc
  retried_again (w, throw z) y e h again =
      let same : is_retryable z ≡ true = ap (λ (r : Result Value). again_of r) h ∙ again in rw same

  retried_final :
      (x y : W × Result Value) (e : Thrown)
      → x.1 ≡ throw e
      → is_retryable e ≡ false
      → retried delay execute x y ≡ x
  retried_final (w, ok a) y e h final = cc
  retried_final (w, throw z) y e h final =
      let same : is_retryable z ≡ false = ap (λ (r : Result Value). again_of r) h ∙ final in rw same

  -- With `n` retries allowed, `request` makes attempts that fail with a server error, status 0 or an
  -- error that is no `FetchException`, at most `n` of them and with a delay after each, and comes to
  -- what the attempt after them comes to; that one returns a value, or its error is one that is not
  -- retried, or it was the last one allowed.
  pub request-Requested : (n : ℕ) (w : W) → Requested n w (request delay execute (pos n) w)
  unfolding request retry_loop
  request-Requested zero w = elim (Result-cases (execute w).1) [
    | inl (v, returned) ↦ at_once 0 w (rw returned (omega arith))
    | inr (e, threw) ↦ at_once 0 w (rw threw (omega arith, inr refl))
  ]
  request-Requested (suc n) w = elim (Result-cases (execute w).1) [
    | inl (v, returned) ↦
        subst (Requested (suc n) w)
          (sym
            (retried_ok (execute w) (retry_loop delay execute n (delay (execute w).0)) v returned))
          (at_once (suc n) w (rw returned (omega arith)))
    | inr (e, threw) ↦ elim (Bool-cases (is_retryable e)) [
      | inl again ↦
          subst (Requested (suc n) w)
            (sym (
              retried_again (execute w) (retry_loop delay execute n (delay (execute w).0)) e threw
                again))
            (Requested-failed n w e (retry_loop delay execute n (delay (execute w).0)) threw again
              (request-Requested n (delay (execute w).0)))
      | inr final ↦
          subst (Requested (suc n) w)
            (sym (
              retried_final (execute w) (retry_loop delay execute n (delay (execute w).0)) e threw
                final))
            (at_once (suc n) w (rw threw (omega arith, inl final)))
    ]
  ]

  abbrev pub delays : ℕ → W → W
  delays zero w = w
  delays (suc n) w = delays n (delay w)

-- Building the URL is not part of what the retries are for, and yet an error of it, such as that of a
-- missing path parameter, is retried: the error comes only after as many delays as there are retries.
pub request_missing_param :
    {W Request Response Value : Type 0} (delay : W → W) (t : Transport W Request Response Value)
    (key : String) (n : ℕ) (w : W)
    → request delay (execute_request t (throw (plain_error key))) (pos n) w
      ≡ (delays delay (execute_request t (throw (plain_error key))) n w, throw (plain_error key))
unfolding request retry_loop execute_request
request_missing_param delay t key zero w = refl
request_missing_param delay t key (suc n) w = request_missing_param delay t key n (delay w)

module _ {W Request Response Value : Type 0} (t : Transport W Request Response Value) where
  caught_throws :
      (x : W × Result Value) (w' : W) (e : Thrown)
      → caught x ≡ (w', throw e)
      → (status : ℕ) × (e ≡ fetch_exception status)
  caught_throws (w, ok a) w' e h = cc
  caught_throws (w, throw (fetch_exception s)) w' e h = (s, ground arith)
  caught_throws (w, throw abort_error) w' e h = (0, ground arith)
  caught_throws (w, throw undefined_value) w' e h = (0, ground arith)
  caught_throws (w, throw (plain_error m)) w' e h = (0, ground arith)

  -- A request whose URL is built throws nothing but `FetchException`, whatever an interceptor, the
  -- transport or parsing throws.
  pub execute_request_throws :
      (url : List String) (w w' : W) (e : Thrown)
      → execute_request t (ok url) w ≡ (w', throw e)
      → (status : ℕ) × (e ≡ fetch_exception status)
  unfolding execute_request
  execute_request_throws url w w' e h = caught_throws (run_request t url w) w' e h

  -- If a request throws `FetchException` with a status from 1 to 499, that of a client error or a
  -- redirect, `request` throws it after this one attempt, however many retries are allowed.
  pub request_client_error :
      (delay : W → W) (url : List String) (n : ℕ) (w w' : W) (status : ℕ)
      → execute_request t (ok url) w ≡ (w', throw (fetch_exception status))
      → 0 < status
      → status < 500
      → request delay (execute_request t (ok url)) (pos n) w ≡ (w', throw (fetch_exception status))
  unfolding request retry_loop
  request_client_error delay url zero w w' status h low high = h
  request_client_error delay url (suc n) w w' status h low high =
      let final : is_retryable (fetch_exception status) ≡ false = ground arith in
      retried_final delay (execute_request t (ok url)) (execute_request t (ok url) w)
        (retry_loop delay (execute_request t (ok url)) n (delay (execute_request t (ok url) w).0))
        (fetch_exception status) (ap (λ (x : W × Result Value). x.1) h) final
      ∙ h
