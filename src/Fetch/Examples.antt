-- ===== src/Fetch/Examples.antt =====
-- Tests, and the theorems on requests at concrete inputs: the world is a clock, and a server fails
-- until it is warm.
use nestplatform.Base.{ℕ, ◌+◌, ◌≡◌, refl, String, List, [], ◌∷◌, ltb, str_eq, if◌then◌else◌}
use nestplatform.Base.Int.{pos}
use nestplatform.Fetch.{
  ok, Segment, literal, param, PathParam, absent, falsy, text, resolve_path_params, Transport,
  intercept, run_request, execute_request, retry_loop, request,
}
use nestplatform.Fetch.Paths.{Resolves, resolve_path_params-Resolves}
use nestplatform.Fetch.Messages.{items, entries, query_parts, parse_query_string}
use nestplatform.Fetch.Retries.{Requested, request-Requested}

abbrev pass : ℕ → ℕ
pass now = now + 10

abbrev params_of : String → PathParam
params_of k = if str_eq k "id" then text "7" else if str_eq k "page" then falsy else absent

abbrev path : List Segment
path = literal "users" ∷ param "id" ∷ param "page" ∷ []

-- The page number 0 is left as a placeholder.
resolved : resolve_path_params ok params_of path ≡ ok ("users" ∷ "7" ∷ ":page" ∷ [])
unfolding resolve_path_params
resolved = refl

resolve_path_params-Resolves_example :
    Resolves ok params_of path (resolve_path_params ok params_of path)
resolve_path_params-Resolves_example = resolve_path_params-Resolves ok params_of path

-- A request takes 1 ms; the status is what it finds.
abbrev server : (ℕ → ℕ) → Transport ℕ String ℕ ℕ
server status_at = record {
  new_request = λ url now. (now, ok "request");
  request_interceptors = [];
  fetch = λ r now. (now + 1, ok (status_at now));
  response_interceptors = [];
  status = λ s. s;
  is_ok = λ s. ltb s 300;
  parse = λ s now. (now, ok s);
  safe_parse_body = λ s now. now;
}

abbrev warms_up : Transport ℕ String ℕ ℕ
warms_up = server (λ now. if ltb now 15 then 503 else 200)

abbrev url : List String
url = "users" ∷ []

third_attempt : request pass (execute_request warms_up (ok url)) (pos 3) 0 ≡ (23, ok 200)
unfolding request retry_loop execute_request run_request intercept
third_attempt = refl

request-Requested_example :
    Requested pass
      (execute_request warms_up (ok url))
      3
      0
      (request pass (execute_request warms_up (ok url)) (pos 3) 0)
request-Requested_example = request-Requested pass (execute_request warms_up (ok url)) 3 0

query_string :
    parse_query_string (λ s. s) (entries (("a", items ("1" ∷ "2" ∷ [])) ∷ [])) ≡ "?a=1&a=2"
unfolding parse_query_string query_parts
query_string = refl
