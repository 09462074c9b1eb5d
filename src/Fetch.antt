-- ===== src/Fetch.antt =====
-- packages/feign/src/fetch/fetch.service.ts: one request, its path and its retries. `fetch`, the
-- interceptors, parsing and sleeping are parameters over a world `W`. A path is the list of its
-- segments, where `param` is one of the form `:key`; Fetch/Segments.antt finds them in a text.
pub mod Retries
pub mod Paths
pub mod Segments
pub mod Messages
pub mod Building
pub mod Interceptors
pub mod Timer
mod Examples
use nestplatform.Base.{
  ℕ, zero, suc, ◌≡◌, String, Option, none, some, Bool, true, false, not, ◌||◌, List, [], ◌∷◌, ◌==◌,
  leb, str_append, if◌then◌else◌,
}
use nestplatform.Base.Int.{ℤ, pos, negsuc}

-- A value that is thrown: `FetchException` with its status, an abort, another error, or `undefined`.
pub data Thrown : Type 0 where
  fetch_exception : ℕ → Thrown
  abort_error undefined_value : Thrown
  plain_error : String → Thrown

pub data Result (A : Type 0) : Type 0 where
  ok : A → Result A
  throw : Thrown → Result A

pub data Segment : Type 0 where
  literal param : String → Segment

-- A path parameter: `undefined` or `null`, another value that counts as false, or a value's text.
pub data PathParam : Type 0 where
  absent falsy : PathParam
  text : String → PathParam

abbrev pub placeholder : String → String
placeholder key = str_append ":" key

abbrev pub with_segment : String → Result (List String) → Result (List String)
with_segment s (ok ss) = ok (s ∷ ss)
with_segment s (throw e) = throw e

-- A value whose encoding throws ends the replacement, as a missing one does.
abbrev pub with_encoded : Result String → Result (List String) → Result (List String)
with_encoded (ok s) rest = with_segment s rest
with_encoded (throw e) rest = throw e

abbrev pub resolved_param :
    (String → Result String) → String → PathParam → Result (List String) → Result (List String)
resolved_param encode key absent rest = throw (plain_error key)
resolved_param encode key falsy rest = with_segment (placeholder key) rest
resolved_param encode key (text v) rest = with_encoded (encode v) rest

-- `encode` is `encodeURIComponent`, which throws for a text that is no well-formed UTF-16.
unfoldable pub resolve_path_params :
    (String → Result String) → (String → PathParam) → List Segment → Result (List String)
resolve_path_params encode params [] = ok []
resolve_path_params encode params (literal s ∷ path) =
    with_segment s (resolve_path_params encode params path)
resolve_path_params encode params (param key ∷ path) =
    resolved_param encode key (params key) (resolve_path_params encode params path)

-- `!(err instanceof FetchException) || err.status === 0 || err.status >= 500`
abbrev pub is_retryable : Thrown → Bool
is_retryable (fetch_exception status) = status == 0 || leb 500 status
is_retryable abort_error = true
is_retryable undefined_value = true
is_retryable (plain_error m) = true

abbrev pub then_do : {W A B : Type 0} → W × Result A → (A → W → W × Result B) → W × Result B
then_do (w, ok a) f = f a w
then_do (w, throw e) f = (w, throw e)

-- The `catch` of one request: what is thrown becomes a `FetchException`.
abbrev pub as_fetch_exception : Thrown → Thrown
as_fetch_exception (fetch_exception status) = fetch_exception status
as_fetch_exception abort_error = fetch_exception 0
as_fetch_exception undefined_value = fetch_exception 0
as_fetch_exception (plain_error m) = fetch_exception 0

abbrev pub caught : {W A : Type 0} → W × Result A → W × Result A
caught (w, ok a) = (w, ok a)
caught (w, throw e) = (w, throw (as_fetch_exception e))

-- What one request runs on.
pub record Transport (W Request Response Value : Type 0) : Type 0 where
  pub new_request : List String → W → W × Result Request
  pub request_interceptors : List (Request → W → W × Result Request)
  pub fetch : Request → W → W × Result Response
  pub response_interceptors : List (Response → W → W × Result Response)
  pub status : Response → ℕ
  pub is_ok : Response → Bool
  -- The response itself where the options ask for it, its parsed body where not.
  pub parse : Response → W → W × Result Value
  -- Reading the body of a failed response; it does not throw.
  pub safe_parse_body : Response → W → W

unfoldable pub intercept : {W R : Type 0} → List (R → W → W × Result R) → R → W → W × Result R
intercept [] r w = (w, ok r)
intercept (i ∷ is) r w = then_do (i r w) (intercept is)

module _ {W Request Response Value : Type 0} (t : Transport W Request Response Value) where
  abbrev pub finish_response : Response → W → W × Result Value
  finish_response res w =
      if t.is_ok res
      then t.parse res w
      else (t.safe_parse_body res w, throw (fetch_exception (t.status res)))

  -- The `try` block of `executeRequest`.
  unfoldable pub run_request : List String → W → W × Result Value
  unfolding intercept
  run_request url w = then_do (t.new_request url w) (λ req w1.
      then_do (intercept t.request_interceptors req w1) (λ req' w2.
        then_do (t.fetch req' w2)
          (λ res w3. then_do (intercept t.response_interceptors res w3) finish_response)))

  -- `executeRequest`; building the URL stands before the `try`.
  unfoldable pub execute_request : Result (List String) → W → W × Result Value
  unfolding run_request
  execute_request (throw e) w = (w, throw e)
  execute_request (ok url) w = caught (run_request url w)

module _ {W Value : Type 0} (delay : W → W) (execute : W → W × Result Value) where
  abbrev pub retried : W × Result Value → W × Result Value → W × Result Value
  retried (w, ok v) again = (w, ok v)
  retried (w, throw e) again = if is_retryable e then again else (w, throw e)

  -- The loop of `request`, with the number of retries that are left.
  unfoldable pub retry_loop : ℕ → W → W × Result Value
  retry_loop zero w = execute w
  retry_loop (suc n) w = let again = retry_loop n (delay (execute w).0) in retried (execute w) again

  -- With a negative count the loop has no round, and `lastError` is thrown, which is `undefined`.
  unfoldable pub request : ℤ → W → W × Result Value
  unfolding retry_loop
  request (pos n) w = retry_loop n w
  request (negsuc n) w = (w, throw undefined_value)
