-- ===== src/Fetch/Timer.antt =====
-- The timer of a request of packages/feign/src/fetch/fetch.service.ts: `executeRequest` sets it before
-- the request is built and clears it once the response has passed its interceptors. The state is the
-- world and the number of timers that are pending; that a timer aborts a request which takes longer is
-- one of the ways in which `fetch` throws.
use nestplatform.Base.{ℕ, zero, suc, ◌+◌, ◌≡◌, refl, ap, sym, ◌∙◌, String, List, arith}
use nestplatform.Base.Int.{pos}
use nestplatform.Fetch.{
  Result, ok, throw, plain_error, fetch_exception, then_do, caught, Transport, intercept,
  finish_response, run_request, execute_request, retry_loop, request,
}

-- `if (timeout) timeoutId = setTimeout(…)`
abbrev pub started : ℕ → ℕ → ℕ
started zero pending = pending
started (suc ms) pending = suc pending

module _ {W Request Response Value : Type 0} (t : Transport W Request Response Value) where
  -- From the request to the response that has passed its interceptors.
  unfoldable pub exchange : List String → W → W × Result Response
  unfolding intercept
  exchange url w = then_do (t.new_request url w) (λ req w1.
      then_do (intercept t.request_interceptors req w1)
        (λ req' w2. then_do (t.fetch req' w2) (λ res w3. intercept t.response_interceptors res w3)))

  -- With a response the timer is cleared, whatever its status is; without one it stays.
  abbrev pub after_exchange : ℕ → ℕ → W × Result Response → (W × ℕ) × Result Value
  after_exchange timeout pending (w, ok res) =
      ((((finish_response t res w).0), pending), (finish_response t res w).1)
  after_exchange timeout pending (w, throw e) = ((w, started timeout pending), throw e)

  unfoldable pub timed_request : ℕ → List String → W × ℕ → (W × ℕ) × Result Value
  unfolding exchange
  timed_request timeout url x = caught (after_exchange timeout x.1 (exchange url x.0))

  then_do_assoc :
      {A B C : Type 0} (x : W × Result A) (f : A → W → W × Result B) (g : B → W → W × Result C)
      → then_do (then_do x f) g ≡ then_do x (λ a w. then_do (f a w) g)
  then_do_assoc (w, ok a) f g = refl
  then_do_assoc (w, throw e) f g = refl

  then_do_same :
      {A B : Type 0} (x : W × Result A) (f g : A → W → W × Result B)
      → ((a : A) (w : W) → f a w ≡ g a w)
      → then_do x f ≡ then_do x g
  then_do_same (w, ok a) f g same = same a w
  then_do_same (w, throw e) f g same = refl

  run_request-exchange :
      (url : List String) (w : W)
      → run_request t url w ≡ then_do (exchange url w) (finish_response t)
  unfolding run_request exchange
  run_request-exchange url w =
      let end = finish_response t in
      then_do_same (t.new_request url w) _ _ (λ req w1.
        then_do_same (intercept t.request_interceptors req w1) _ _ (λ req' w2. sym (
          then_do_assoc (t.fetch req' w2) (λ res w3. intercept t.response_interceptors res w3) end))
        ∙ sym (
            then_do_assoc (intercept t.request_interceptors req w1)
              (λ req' w2.
                then_do (t.fetch req' w2) (λ res w3. intercept t.response_interceptors res w3))
              end))
      ∙ sym (then_do_assoc (t.new_request url w) _ end)

  abbrev pub without_timers : {A : Type 0} → (W × ℕ) × Result A → W × Result A
  without_timers x = (x.0.0, x.1)

  forgotten_end :
      (pending : ℕ) (x : W × Result Value)
      → without_timers (caught ((x.0, pending), x.1)) ≡ caught x
  forgotten_end pending (w, ok v) = refl
  forgotten_end pending (w, throw e) = refl

  forgotten :
      (timeout pending : ℕ) (x : W × Result Response)
      → without_timers (caught (after_exchange timeout pending x))
        ≡ caught (then_do x (finish_response t))
  forgotten timeout pending (w, ok res) = forgotten_end pending (finish_response t res w)
  forgotten timeout pending (w, throw e) = refl

  -- But for the timers, a request with a timer does what a request does.
  pub timed_request-execute_request :
      (timeout : ℕ) (url : List String) (x : W × ℕ)
      → without_timers (timed_request timeout url x) ≡ execute_request t (ok url) x.0
  unfolding timed_request execute_request
  timed_request-execute_request timeout url x =
      forgotten timeout x.1 (exchange url x.0) ∙ ap caught (sym (run_request-exchange url x.0))

  failed_attempt :
      (timeout : ℕ) (url : List String) (x : W × ℕ) (w' : W) (m : String)
      → exchange url x.0 ≡ (w', throw (plain_error m))
      → timed_request (suc timeout) url x ≡ ((w', suc x.1), throw (fetch_exception 0))
  unfolding timed_request
  failed_attempt timeout url x w' m fails = rw fails refl

  retry_loop_leaves :
      (delay : W → W) (timeout n : ℕ) (url : List String) (x : W × ℕ)
      → ((w : W) → (w' : W) × (m : String) × (exchange url w ≡ (w', throw (plain_error m))))
      → (retry_loop (λ y. (delay y.0, y.1)) (timed_request (suc timeout) url) n x).0.1 ≡ x.1 + suc n
  unfolding retry_loop
  retry_loop_leaves delay timeout zero url x silent =
      let (w', m, fails) = silent x.0 in rw (failed_attempt timeout url x w' m fails) (omega arith)
  retry_loop_leaves delay timeout (suc n) url x silent =
      let (w', m, fails) = silent x.0 in
      rw (failed_attempt timeout url x w' m fails)
        (omega (arith, retry_loop_leaves delay timeout n url (delay w', suc x.1) silent))

  -- If no server answers, each of the attempts leaves a timer behind.
  pub request_leaves_timers :
      (delay : W → W) (timeout n : ℕ) (url : List String) (x : W × ℕ)
      → ((w : W) → (w' : W) × (m : String) × (exchange url w ≡ (w', throw (plain_error m))))
      → (request (λ y. (delay y.0, y.1)) (timed_request (suc timeout) url) (pos n) x).0.1
        ≡ x.1 + suc n
  unfolding request
  request_leaves_timers delay timeout n url x silent =
      retry_loop_leaves delay timeout n url x silent
