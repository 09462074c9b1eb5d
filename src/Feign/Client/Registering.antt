-- ===== src/Feign/Client/Registering.antt =====
-- Which fetcher a client's methods reach.
use nestplatform.Base.{
  ℕ, ◌≡◌, refl, ap, ◌∙◌, String, Option, none, some, Bool, true, false, List, [], ◌∷◌, str_eq,
  str_eq_iff, arith, if◌then◌else◌,
}
use nestplatform.Feign.Routes.{final_path}
use nestplatform.Feign.Objects.{Arg}
use nestplatform.Feign.Client.{
  FeignMethodOptions, FeignClientOptions, ParameterMetadata, fetch_options, FeignFetcherMethod,
  Fetched, fetched, add, registered, get_fetcher, call_fetcher, decorate_fetch, found,
}
use nestplatform.Feign.Configuration.{
  FetchConfig, FeignClientConfig, config_fetcher, added, register,
}

registered-add :
    {F : Type 0} (name n : String) (f : F) (m : List (String × F))
    → registered name (add n f m) ≡ (if str_eq n name then some f else registered name m)
unfolding registered add
registered-add name n f [] = refl
registered-add name n f ((k, g) ∷ m) =
    ground (arith, str_eq_iff k n, str_eq_iff n name, str_eq_iff k name, registered-add name n f m)

through :
    {A B : Type 0} (g : A → B) (b : Bool) (x y : A)
    → g (if b then x else y) ≡ (if b then g x else g y)
through g true x y = refl
through g false x y = refl

module _ {V W A : Type 0} (serve : FetchConfig V → FeignFetcherMethod V W A) where
  abbrev Fetcher : Type 0
  Fetcher = FeignFetcherMethod V W A

  added-some :
      (n : String) (o : Option Fetcher) (m m' : List (String × Fetcher))
      → added serve n o m ≡ some m'
      → (f : Fetcher) × (o ≡ some f) × (m' ≡ add n f m)
  unfolding added add
  added-some n none m m' h = cc
  added-some n (some f) m m' h = (f, refl, cc)

  -- After a configuration is registered, the methods of the clients of its name call its fetcher,
  -- with the joined path and the options that are made of the arguments; the methods of the clients
  -- of other names call what they called before.
  pub register_then_call :
      (c : FeignClientConfig V Fetcher) (m m' : List (String × Fetcher)) (index_key : ℕ → String)
      (fallback : Fetcher) (client : FeignClientOptions) (o : FeignMethodOptions)
      (idx : ParameterMetadata) (args : List (Arg V)) (w : W)
      → register serve c m ≡ some m'
      → (f : Fetcher) × (config_fetcher serve c ≡ some f)
        × (decorate_fetch index_key fallback client o idx m' args w ≡ (
            if str_eq c.name client.name
            then fetched
                (f (final_path client.path o.path) (fetch_options index_key client o idx args) w)
            else decorate_fetch index_key fallback client o idx m args w))
  unfolding register decorate_fetch get_fetcher
  register_then_call c m m' index_key fallback client o idx args w h =
      let (f, made, after') = added-some c.name (config_fetcher serve c) m m' h in
      let call : Option Fetcher → W × Fetched A = λ g.
        call_fetcher (found g true fallback) client.name (final_path client.path o.path)
          (fetch_options index_key client o idx args) w in
      (
        f,
        made,
        ap call (ap (registered client.name) after' ∙ registered-add client.name c.name f m)
            ∙ through call (str_eq c.name client.name) (some f) (registered client.name m),
      )
