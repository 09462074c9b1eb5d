-- ===== src/Fetch/Messages.antt =====
-- Query strings and bodies of packages/feign/src/fetch/fetch.service.ts. `encode` is
-- `encodeURIComponent`; the texts of values and of JSON are those that JavaScript gives.
use Prim.Native.String.{count}
use text.Mathlib.TextLemmas.{length-append}
use nestplatform.Base.{
  ◌≡◌, ◌↔◌, refl, ap, String, Option, none, some, List, [], ◌∷◌, ◌++◌, map, str_append, arith,
}

-- A query value: `undefined` or `null`, an array, an object by its JSON, or another value.
pub data QueryValue : Type 0 where
  absent_value : QueryValue
  items : List String → QueryValue
  object scalar : String → QueryValue

pub data Query : Type 0 where
  no_query : Query
  search_params : String → Query
  entries : List (String × QueryValue) → Query

module _ (encode : String → String) where
  abbrev pub part : String → String → String
  part key v = str_append (encode key) (str_append "=" (encode v))

  abbrev pub parts_of : String → QueryValue → List String
  parts_of key absent_value = []
  parts_of key (items vs) = map (part key) vs
  parts_of key (object json) = part key json ∷ []
  parts_of key (scalar v) = part key v ∷ []

  unfoldable pub query_parts : List (String × QueryValue) → List String
  query_parts [] = []
  query_parts ((key, v) ∷ query) = parts_of key v ++ query_parts query

  -- `parts.join("&")`
  abbrev pub joined_parts : List String → String
  joined_parts [] = ""
  joined_parts (p ∷ []) = p
  joined_parts (p ∷ q ∷ ps) = str_append p (str_append "&" (joined_parts (q ∷ ps)))

  abbrev pub question : List String → String
  question [] = ""
  question (p ∷ ps) = str_append "?" (joined_parts (p ∷ ps))

  unfoldable pub parse_query_string : Query → String
  unfolding query_parts
  parse_query_string no_query = ""
  parse_query_string (search_params s) = str_append "?" s
  parse_query_string (entries query) = question (query_parts query)

  -- A value adds nothing if it is absent or an empty array.
  abbrev pub AddsNothing : List (String × QueryValue) → Type 0
  AddsNothing [] = Unit
  AddsNothing ((key, absent_value) ∷ query) = AddsNothing query
  AddsNothing ((key, items []) ∷ query) = AddsNothing query
  AddsNothing ((key, items (v ∷ vs)) ∷ query) = ⊥
  AddsNothing ((key, object json) ∷ query) = ⊥
  AddsNothing ((key, scalar v) ∷ query) = ⊥

  query_parts_nil :
      (query : List (String × QueryValue)) → (query_parts query ≡ []) ↔ AddsNothing query
  unfolding query_parts
  query_parts_nil [] = (λ h. tt, λ h. refl)
  query_parts_nil ((key, absent_value) ∷ query) = query_parts_nil query
  query_parts_nil ((key, items []) ∷ query) = query_parts_nil query
  query_parts_nil ((key, items (v ∷ vs)) ∷ query) = (λ h. cc, λ h. absurd h)
  query_parts_nil ((key, object json) ∷ query) = (λ h. cc, λ h. absurd h)
  query_parts_nil ((key, scalar v) ∷ query) = (λ h. cc, λ h. absurd h)

  question_empty : (ps : List String) → question ps ≡ "" → ps ≡ []
  question_empty [] h = refl
  question_empty (p ∷ ps) h =
      absurd (omega (arith, length-append "?" (joined_parts (p ∷ ps)), ap count h))

  -- The query string of an object is empty exactly if every value of it is `undefined`, `null` or an
  -- empty array; otherwise it starts with a question mark.
  pub parse_query_string_empty :
      (query : List (String × QueryValue))
      → (parse_query_string (entries query) ≡ "") ↔ AddsNothing query
  unfolding parse_query_string
  parse_query_string_empty query = (
    (λ h. (query_parts_nil query).0 (question_empty (query_parts query) h)),
    (λ h. rw ((query_parts_nil query).1 h) refl),
  )

-- A body that a request is given, and what is sent. `text_body` is also a blob or an array buffer.
pub data FetchBody : Type 0 where
  no_body form_data : FetchBody
  url_params text_body json_body other_body : String → FetchBody

pub data SentBody : Type 0 where
  nothing_sent form_sent : SentBody
  text_sent : String → SentBody

abbrev pub or_json : Option String → Option String
or_json none = some "application/json"
or_json (some ct) = some ct

-- The content type of the headers afterwards, and what is sent.
unfoldable pub safe_parse_request_body : Option String → FetchBody → Option String × SentBody
safe_parse_request_body ct no_body = (ct, nothing_sent)
safe_parse_request_body ct form_data = (none, form_sent)
safe_parse_request_body ct (url_params s) = (some "application/x-www-form-urlencoded", text_sent s)
safe_parse_request_body ct (text_body s) = (ct, text_sent s)
safe_parse_request_body ct (json_body s) = (or_json ct, text_sent s)
safe_parse_request_body ct (other_body s) = (ct, text_sent s)
