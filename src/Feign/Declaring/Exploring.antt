-- ===== src/Feign/Declaring/Exploring.antt =====
-- Which members of a client the explorer replaces.
use nestplatform.Base.{
  ℕ, ◌≡◌, refl, sym, ap, ◌∙◌, String, none, some, Bool, true, false, ◌||◌, List, [], ◌∷◌, mem_key,
  str_eq, str_eq_iff, Bool-cases, inl, inr, if◌then◌else◌,
}
use nestplatform.Feign.Client.{FeignMethodOptions, FeignClientOptions, FeignFetcherMethod}
use nestplatform.Feign.Declaring.{
  Member, no_function, function, explore_member, explore_members, MetadataScanner, all_method_names,
  Reflection, ClientMethod, decorated, on_provider,
}

module _ {F : Type 0} where
  -- What a member becomes.
  abbrev pub replaced : (String → FeignMethodOptions → F) → Member F → Member F
  replaced decorate no_function = no_function
  replaced decorate (function name none f) = function name none f
  replaced decorate (function name (some o) f) = function "" none (decorate name o)

  -- A decorated member's function has the member's name.
  abbrev pub Named : String → Member F → Type 0
  Named n no_function = Unit
  Named n (function name none f) = Unit
  Named n (function name (some o) f) = name ≡ n

  Named-replaced :
      (decorate : String → FeignMethodOptions → F) (n : String) (x : Member F)
      → Named n (replaced decorate x)
  Named-replaced decorate n no_function = tt
  Named-replaced decorate n (function name none f) = tt
  Named-replaced decorate n (function name (some o) f) = tt

  replaced_twice :
      (decorate : String → FeignMethodOptions → F) (x : Member F)
      → replaced decorate (replaced decorate x) ≡ replaced decorate x
  replaced_twice decorate no_function = refl
  replaced_twice decorate (function name none f) = refl
  replaced_twice decorate (function name (some o) f) = refl

  -- A member that is read and is left as it is.
  kept_member :
      (m n : String) (i : String → Member F) (x : Member F)
      → i m ≡ x
      → i n ≡ (if str_eq m n then x else i n)
  kept_member m n i x e = elim (Bool-cases (str_eq m n)) [
    | inl same ↦ rw same (ap i (sym ((str_eq_iff m n).0 same)) ∙ e)
    | inr other ↦ rw other refl
  ]

  module _ (decorate : String → FeignMethodOptions → F) where
    explored_member :
        (m n : String) (x : Member F) (i : String → Member F)
        → Named m x
        → i m ≡ x
        → explore_member decorate x i n ≡ (if str_eq m n then replaced decorate x else i n)
    explored_member m n no_function i named e = kept_member m n i no_function e
    explored_member m n (function name none f) i named e =
        kept_member m n i (function name none f) e
    explored_member m n (function name (some o) f) i named e = rw named refl

    explored_Named :
        (m : String) (x : Member F) (i : String → Member F)
        → i m ≡ x
        → ((n : String) → Named n (i n))
        → (n : String) → Named n (explore_member decorate x i n)
    explored_Named m no_function i e named n = named n
    explored_Named m (function name none f) i e named n = named n
    explored_Named m (function name (some o) f) i e named n = elim (Bool-cases (str_eq name n)) [
      | inl same ↦ rw same tt
      | inr other ↦ rw other (named n)
    ]

    step :
        (b c : Bool) (x y : Member F)
        → (c ≡ true → y ≡ x)
        → (if b
            then replaced decorate (if c then replaced decorate y else x)
            else (if c then replaced decorate y else x))
          ≡ (if c || b then replaced decorate x else x)
    step true true x y h = replaced_twice decorate y ∙ ap (replaced decorate) (h refl)
    step false true x y h = ap (replaced decorate) (h refl)
    step true false x y h = refl
    step false false x y h = refl

    explore_members-Named :
        (names : List String) (i : String → Member F)
        → ((n : String) → Named n (i n))
        → (n : String)
        → explore_members decorate names i n
          ≡ (if mem_key n names then replaced decorate (i n) else i n)
    unfolding explore_members
    explore_members-Named [] i named n = refl
    explore_members-Named (m ∷ ms) i named n =
        explore_members-Named ms (explore_member decorate (i m) i)
          (explored_Named m (i m) i refl named) n
        ∙ rw (explored_member m n (i m) i (named m) refl)
            (step (mem_key n ms) (str_eq m n) (i n) (i m) (λ same. ap i ((str_eq_iff m n).0 same)))

module _ (r : Reflection) {V W A : Type 0} (index_key : ℕ → String)
    (fallback : FeignFetcherMethod V W A) where
  open r use {Store}

  -- The explorer on a client whose decorated functions go by the names of their members: each member
  -- that the scanner lists and that has the metadata of a Feign method becomes the decorated one, once,
  -- however often it is listed; every other member stays as it is.
  pub on_provider_replaces :
      (scanner : MetadataScanner) (client : FeignClientOptions) (target : ℕ) (s : Store)
      (i : String → Member (ClientMethod V W A)) (n : String)
      → ((m : String) → Named m (i m))
      → on_provider r index_key fallback scanner (some client) target s i n ≡ (
          if mem_key n (all_method_names scanner target)
          then replaced (decorated r index_key fallback client target s) (i n)
          else i n)
  unfolding on_provider
  on_provider_replaces scanner client target s i n named =
      explore_members-Named (decorated r index_key fallback client target s)
        (all_method_names scanner target) i named n
