-- ===== src/Feign/DefaultFetcher.antt =====
-- packages/feign/src/feign/feign.util.ts: the fetcher of a client that has none. A path is the list of
-- its pieces, where `param` is a colon and the name after it, up to the end of the word. The texts of
-- values, the query string and the global `fetch` with its response are parameters; an encoded value
-- has no colon.
pub mod Substitution
use nestplatform.Base.{
  ℕ, String, Option, none, some, Bool, true, false, not, ◌||◌, List, [], ◌∷◌, ◌++◌, ◌==◌, str_eq,
  if◌then◌else◌,
}
use nestplatform.Feign.Routes.{Text, slash, is_empty, strip_trailing}
use nestplatform.Feign.Client.{FeignMethod}

pub data Piece : Type 0 where
  literal : Text → Piece
  param : String → Piece

-- `url.replaceAll(new RegExp(":key\b", "g"), …)`
abbrev pub replaced_piece : String → Text → Piece → Piece
replaced_piece k v (literal t) = literal t
replaced_piece k v (param j) = if str_eq k j then literal v else param j

unfoldable pub replace_all : String → Text → List Piece → List Piece
replace_all k v [] = []
replace_all k v (p ∷ ps) = replaced_piece k v p ∷ replace_all k v ps

-- The loop over the parameters; `encode` is `encodeURIComponent(String(value))`.
unfoldable pub replace_params :
    {V : Type 0} → (V → Text) → List (String × V) → List Piece → List Piece
unfolding replace_all
replace_params encode [] ps = ps
replace_params encode ((k, v) ∷ params) ps =
    replace_params encode params (replace_all k (encode v) ps)

abbrev pub text_of : (String → Text) → List Piece → Text
text_of word [] = []
text_of word (literal t ∷ ps) = t ++ text_of word ps
text_of word (param k ∷ ps) = 58 ∷ (word k ++ text_of word ps)

-- The query values that are neither `undefined` nor `null`.
abbrev pub appended : {V : Type 0} → (V → Bool) → List (String × V) → List (String × V)
appended is_nullish [] = []
appended is_nullish ((k, v) ∷ qs) =
    if is_nullish v then appended is_nullish qs else (k, v) ∷ appended is_nullish qs

abbrev pub with_query : Text → Text → Text
with_query url [] = url
with_query url (c ∷ cs) = url ++ 63 ∷ c ∷ cs

abbrev pub starting_slash : Text → Text
starting_slash [] = slash ∷ []
starting_slash (c ∷ cs) = if c == slash then c ∷ cs else slash ∷ c ∷ cs

-- The URL under `baseUrl`, where that is given and not empty.
unfoldable pub full_url : Option Text → Text → Text
unfolding strip_trailing
full_url none path = path
full_url (some []) path = path
full_url (some (c ∷ cs)) path = strip_trailing (c ∷ cs) ++ starting_slash path

-- What the values and the environment are to the fetcher. `is_form` tells a `FormData`, a `Blob` or an
-- `ArrayBuffer`, `is_text` a string.
pub record Environment (V B W Response Value : Type 0) : Type 0 where
  pub word : String → Text
  pub encode : V → Text
  pub is_nullish : V → Bool
  pub query_text : List (String × V) → Text
  pub is_truthy : B → Bool
  pub is_form : B → Bool
  pub is_text : B → Bool
  pub json : B → B
  pub fetch : FeignMethod → Text → Bool → Option B → W → W × Response
  pub is_ok : Response → Bool
  pub status : Response → ℕ
  pub is_json : Response → Bool
  pub is_text_type : Response → Bool
  pub read_json : Response → W → W × Value
  pub read_text : Response → W → W × Value
  pub read_buffer : Response → W → W × Value

pub data Answer (Value : Type 0) : Type 0 where
  parsed : Value → Answer Value
  http_error : ℕ → Value → Answer Value

module _ {V B W Response Value : Type 0} (e : Environment V B W Response Value) where
  unfoldable pub build_url : List Piece → List (String × V) → List (String × V) → Text
  unfolding replace_params
  build_url path params queries =
      with_query (text_of e.word (replace_params e.encode params path))
        (e.query_text (appended e.is_nullish queries))

  -- `normalizeHeaders`: whether the content type of JSON is added. `settled` tells that the headers
  -- are a `Headers` already or have a content type.
  abbrev pub adds_json_type : Bool → Option B → Bool
  adds_json_type settled none = false
  adds_json_type settled (some b) =
      if e.is_truthy b then (if e.is_form b || settled then false else true) else false

  abbrev pub normalize_body : Option B → Option B
  normalize_body none = none
  normalize_body (some b) = if e.is_form b || e.is_text b then some b else some (e.json b)

  abbrev pub as_answer : W × Value → W × Answer Value
  as_answer (w, v) = (w, parsed v)

  abbrev pub parse_response : Response → W → W × Answer Value
  parse_response r w =
      if e.is_json r
      then as_answer (e.read_json r w)
      else if e.is_text_type r
      then as_answer (e.read_text r w)
      else as_answer (e.read_buffer r w)

  abbrev pub as_error : ℕ → W × Value → W × Answer Value
  as_error status (w, v) = (w, http_error status v)

  abbrev pub answered_by : W × Response → W × Answer Value
  answered_by (w, r) =
      if e.is_ok r then parse_response r w else as_error (e.status r) (e.read_text r w)

  unfoldable pub default_feign_fetcher :
      FeignMethod
      → Option Text
      → List Piece
      → List (String × V)
      → List (String × V)
      → Bool
      → Option B
      → W
      → W × Answer Value
  unfolding build_url full_url
  default_feign_fetcher method base path params queries settled body w = answered_by (
      e.fetch method (full_url base (build_url path params queries)) (adds_json_type settled body)
        (normalize_body body) w)
