-- ===== src/Fetch/Interceptors.antt =====
-- packages/feign/src/fetch: fetch-interceptor.explorer.ts, the module and its defaults. A provider's
-- `intercept` is known by what it does to a request and to a response.
use nestplatform.Base.{
  ℕ, ◌≡◌, refl, ap, sym, ◌∙◌, Option, none, some, Bool, true, false, ◌&&◌, List, [], ◌∷◌, ◌++◌,
  append_assoc, append-nil, if◌then◌else◌, str_eq,
}
use nestplatform.Common.Modules.{
  InjectionToken, text, class, missing, ModuleConfigBase, DynamicModule, config,
}
use nestplatform.Fetch.{Result, ok, throw, then_do, intercept}

abbrev pub Interceptor : Type 0 → Type 0 → Type 0
Interceptor W R = R → W → W × Result R

-- A provider: whether it has an instance and a class, and how the class is marked.
pub record InterceptorProvider (W Request Response : Type 0) : Type 0 where
  pub complete : Bool
  pub is_request_interceptor : Bool
  pub is_response_interceptor : Bool
  pub intercept_request : Interceptor W Request
  pub intercept_response : Interceptor W Response

-- `FetchInterceptorExplorer`
pub record Explorer (W Request Response : Type 0) : Type 0 where
  pub request_interceptors : List (Interceptor W Request)
  pub response_interceptors : List (Interceptor W Response)

abbrev pub push_if : {A : Type 0} → Bool → A → List A → List A
push_if true a xs = xs ++ a ∷ []
push_if false a xs = xs

abbrev pub nothing_found : {W Request Response : Type 0} → Explorer W Request Response
nothing_found = record { request_interceptors = []; response_interceptors = [] }

module _ {W Request Response : Type 0} where
  unfoldable pub on_provider :
      InterceptorProvider W Request Response
      → Explorer W Request Response
      → Explorer W Request Response
  on_provider p x = record {
    request_interceptors =
        push_if (p.complete && p.is_request_interceptor) p.intercept_request x.request_interceptors;
    response_interceptors =
        push_if (p.complete && p.is_response_interceptor) p.intercept_response
          x.response_interceptors;
  }

  -- The explorer after the providers of the application.
  unfoldable pub explored :
      List (InterceptorProvider W Request Response)
      → Explorer W Request Response
      → Explorer W Request Response
  unfolding on_provider
  explored [] x = x
  explored (p ∷ ps) x = explored ps (on_provider p x)

-- `DEFAULT_FETCH_CONFIG`, but for its empty headers and its credentials.
abbrev pub default_timeout_ms : ℕ
default_timeout_ms = 5000

abbrev pub default_retry_count : ℕ
default_retry_count = 0

abbrev pub default_retry_delay_ms : ℕ
default_retry_delay_ms = 1000

pub data FetchProvider : Type 0 where
  interceptor_explorer fetch_config fetch_service : FetchProvider
  existing : InjectionToken → FetchProvider
  other : InjectionToken → FetchProvider

abbrev pub provide : FetchProvider → InjectionToken
provide interceptor_explorer = class 1
provide fetch_config = text "token:fetch-config"
provide fetch_service = class 2
provide (existing t) = t
provide (other t) = t

-- `config.injectionToken || FetchService.name`
abbrev pub token_of : Option InjectionToken → InjectionToken
token_of none = text "FetchService"
token_of (some (class n)) = class n
token_of (some (text s)) = if str_eq s "" then text "FetchService" else text s

unfoldable pub register : ModuleConfigBase FetchProvider → DynamicModule FetchProvider
unfolding config
register c =
    let t = token_of c.injection_token in
    config c (record {
      global = missing;
      imports = some (class 0 ∷ []);
      providers = some (interceptor_explorer ∷ fetch_config ∷ fetch_service ∷ existing t ∷ []);
      exports = some (t ∷ []);
    })

pushed :
    {A : Type 0} (b : Bool) (i : A) (xs ys zs : List A)
    → zs ≡ push_if b i xs ++ ys
    → zs ≡ xs ++ (if b then i ∷ ys else ys)
pushed true i xs ys zs h = h ∙ append_assoc xs (i ∷ []) ys
pushed false i xs ys zs h = h

module _ {W Request Response : Type 0} where
  -- A request through the marked providers, one after another.
  abbrev pub through : List (InterceptorProvider W Request Response) → Interceptor W Request
  through [] r w = (w, ok r)
  through (p ∷ ps) r w =
      if p.complete && p.is_request_interceptor
      then then_do (p.intercept_request r w) (through ps)
      else through ps r w

  then_do_same :
      (ys : List (Interceptor W Request)) (ps : List (InterceptorProvider W Request Response))
      (y : W × Result Request)
      → ((r : Request) (w : W) → intercept ys r w ≡ through ps r w)
      → then_do y (intercept ys) ≡ then_do y (through ps)
  then_do_same ys ps (w, ok r) same = same r w
  then_do_same ys ps (w, throw e) same = refl

  chosen_first :
      (b : Bool) (p : InterceptorProvider W Request Response)
      (ps : List (InterceptorProvider W Request Response)) (ys : List (Interceptor W Request))
      → ((r : Request) (w : W) → intercept ys r w ≡ through ps r w)
      → (r : Request) (w : W)
      → intercept (if b then p.intercept_request ∷ ys else ys) r w
        ≡ (if b then then_do (p.intercept_request r w) (through ps) else through ps r w)
  unfolding intercept
  chosen_first true p ps ys same r w = then_do_same ys ps (p.intercept_request r w) same
  chosen_first false p ps ys same r w = same r w

  explored_from :
      (ps : List (InterceptorProvider W Request Response)) (x : Explorer W Request Response)
      → (ys : List (Interceptor W Request)) × ((explored ps x).request_interceptors
          ≡ x.request_interceptors ++ ys)
        × ((r : Request) (w : W) → intercept ys r w ≡ through ps r w)
  unfolding explored on_provider intercept
  explored_from [] x = ([], sym (append-nil x.request_interceptors), λ r w. refl)
  explored_from (p ∷ ps) x =
      let (ys, listed, same) = explored_from ps (on_provider p x) in
      let b = p.complete && p.is_request_interceptor in
      (
        if b then p.intercept_request ∷ ys else ys,
        pushed b p.intercept_request x.request_interceptors ys
            (explored ps (on_provider p x)).request_interceptors listed,
        chosen_first b p ps ys same,
      )

  -- A request goes through the interceptors that the explorer has found in the order of the providers:
  -- through those that have an instance and a class that is marked, until one of them throws.
  pub explored_interceptors_run :
      (ps : List (InterceptorProvider W Request Response)) (r : Request) (w : W)
      → intercept (explored ps nothing_found).request_interceptors r w ≡ through ps r w
  explored_interceptors_run ps r w =
      let (ys, listed, same) = explored_from ps nothing_found in
      ap (λ is. intercept is r w) listed ∙ same r w
