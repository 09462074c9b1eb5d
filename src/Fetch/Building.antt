-- ===== src/Fetch/Building.antt =====
-- The headers, the URL and the options of a request of packages/feign/src/fetch/fetch.service.ts, and
-- what is read from a response. `lower` is the lower case of a header's name.
pub mod Headers
use nestplatform.Base.{
  ℕ, String, Option, none, some, Bool, true, false, not, ◌&&◌, List, [], ◌∷◌, ◌++◌, ◌==◌,
  if◌then◌else◌,
}
use nestplatform.Fetch.{Thrown, Result, ok, throw, then_do}
use nestplatform.Feign.Routes.{Text, slash, strip_leading}
use nestplatform.Feign.Routes.Slashes.{starts_with_slash}
use nestplatform.Feign.Objects.{spread}
use nestplatform.Fetch.Messages.{FetchBody, no_body}

-- Headers that are given: a `Headers`, whose entries are no properties of its own, or a plain object.
pub data FetchHeaders : Type 0 where
  no_headers : FetchHeaders
  instance_of_headers plain_headers : List (String × String) → FetchHeaders

-- The names and values that `Object.keys` leads to.
abbrev pub listed_headers : FetchHeaders → List (String × String)
listed_headers no_headers = []
listed_headers (instance_of_headers hs) = []
listed_headers (plain_headers hs) = hs

-- `headers.set` takes a name in any case.
abbrev pub lowered : (String → String) → List (String × String) → List (String × String)
lowered lower [] = []
lowered lower ((k, v) ∷ hs) = (lower k, v) ∷ lowered lower hs

unfoldable pub merge_headers :
    (String → String) → FetchHeaders → FetchHeaders → List (String × String)
unfolding spread
merge_headers lower a b =
    spread (spread [] (lowered lower (listed_headers a))) (lowered lower (listed_headers b))

-- `.replace(/([^:])\/\/+/, "$1/")`: the first run of slashes that is not behind a colon.
unfoldable pub collapse_first : Text → Text
unfolding strip_leading
collapse_first [] = []
collapse_first (c ∷ []) = c ∷ []
collapse_first (c ∷ d ∷ cs) =
    let rest = collapse_first (d ∷ cs) in
    if not (c == 58) && (d == slash) && starts_with_slash cs
    then c ∷ slash ∷ strip_leading cs
    else c ∷ rest

abbrev pub rooted : Text → Text
rooted [] = slash ∷ []
rooted (c ∷ cs) = if c == slash then c ∷ cs else slash ∷ c ∷ cs

abbrev pub or_no_text : Option Text → Text
or_no_text none = []
or_no_text (some t) = t

abbrev pub joined_url : Text → Text → Result Text → Result Text
joined_url base query (ok path) = ok (collapse_first (base ++ path) ++ query)
joined_url base query (throw e) = throw e

-- `buildUrl`: `resolve` resolves the path's parameters, and `query` is the query string.
unfoldable pub build_url : (Text → Result Text) → Option Text → Text → Text → Result Text
unfolding collapse_first
build_url resolve base path query = joined_url (or_no_text base) query (resolve (rooted path))

pub data ContentType : Type 0 where
  no_content_type json_type text_type other_type : ContentType

-- Reading a response's body, each of which may throw.
pub record BodyReader (W V : Type 0) : Type 0 where
  pub content_type : ContentType
  pub text : W → W × Result V
  pub json : W → W × Result V
  pub blob : W → W × Result V
  pub blob_to_text : V → W → W × Result V
  pub null : V

module _ {W V : Type 0} (r : BodyReader W V) where
  unfoldable pub parse_response_body : W → W × Result V
  parse_response_body w = elim r.content_type [
    | no_content_type ↦ r.text w
    | json_type ↦ r.json w
    | text_type ↦ r.text w
    | other_type ↦ r.blob w
  ]

  -- Whatever throws, the body is `null`.
  abbrev pub or_null : W × Result V → W × V
  or_null (w, ok v) = (w, v)
  or_null (w, throw e) = (w, r.null)

  unfoldable pub safe_parse_body : W → W × V
  safe_parse_body w = elim r.content_type [
    | no_content_type ↦ or_null (r.text w)
    | json_type ↦ or_null (r.json w)
    | text_type ↦ or_null (r.text w)
    | other_type ↦ or_null (then_do (r.blob w) r.blob_to_text)
  ]

pub data FetchMethod : Type 0 where
  get post put patch delete : FetchMethod

pub record FetchOptions : Type 0 where
  pub method : Option FetchMethod
  pub body : FetchBody
  pub timeout_ms : Option ℕ

-- `opts.timeoutMs ?? this.config.timeoutMs`, where 0 sets no timer.
abbrev pub timeout_of : Option ℕ → ℕ → ℕ
timeout_of none default_ms = default_ms
timeout_of (some ms) default_ms = ms

-- The options of the five verbs. Those with a body replace the body of the options even where it is
-- left out.
unfoldable pub verb_options : FetchMethod → FetchBody → FetchOptions → FetchOptions
verb_options get body o = record o { method = some get }
verb_options post body o = record o { method = some post; body = body }
verb_options put body o = record o { method = some put; body = body }
verb_options patch body o = record o { method = some patch; body = body }
verb_options delete body o = record o { method = some delete }
