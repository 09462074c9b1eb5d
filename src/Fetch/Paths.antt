-- ===== src/Fetch/Paths.antt =====
-- Which paths are resolved, and what becomes of their parameters.
use nestplatform.Base.{◌≡◌, ◌≢◌, refl, ap, ◌⊎◌, String, List, [], ◌∷◌, ◌++◌, inl, inr}
use nestplatform.Fetch.{
  Thrown, plain_error, Result, ok, throw, Segment, literal, param, PathParam, absent, falsy, text,
  placeholder, with_segment, resolve_path_params,
}

module _ (encode : String → Result String) (params : String → PathParam) where
  -- What a parameter becomes.
  abbrev pub shown : String → PathParam → Result String
  shown key absent = throw (plain_error key)
  shown key falsy = ok (placeholder key)
  shown key (text v) = encode v

  abbrev pub Shows : List Segment → List String → Type 0
  Shows [] [] = Unit
  Shows [] (s ∷ ss) = ⊥
  Shows (x ∷ xs) [] = ⊥
  Shows (literal l ∷ path) (s ∷ ss) = (s ≡ l) × Shows path ss
  Shows (param key ∷ path) (s ∷ ss) =
      (params key ≢ absent) × (shown key (params key) ≡ ok s) × Shows path ss

  -- What the resolution comes to: a path that shows, or the first key whose parameter is absent or has
  -- a text that cannot be encoded.
  abbrev pub Resolves : List Segment → Result (List String) → Type 0
  Resolves path (ok ss) = Shows path ss
  Resolves path (throw e) =
      (before : List Segment) × (key : String) × (after' : List Segment) × (shows : List String)
      × (path ≡ before ++ param key ∷ after')
      × Shows before shows
      × (((params key ≡ absent) × (e ≡ plain_error key))
          ⊎ ((v : String) × (params key ≡ text v) × (encode v ≡ throw e)))

  Resolves-literal :
      (l : String) (path : List Segment) (r : Result (List String))
      → Resolves path r
      → Resolves (literal l ∷ path) (with_segment l r)
  Resolves-literal l path (ok ss) h = (refl, h)
  Resolves-literal l path (throw e) (before, key, rest, shows, split, h, why) =
      (literal l ∷ before, key, rest, l ∷ shows, ap (◌∷◌ (literal l)) split, (refl, h), why)

  Resolves-param :
      (k s : String) (path : List Segment) (r : Result (List String))
      → params k ≢ absent
      → shown k (params k) ≡ ok s
      → Resolves path r
      → Resolves (param k ∷ path) (with_segment s r)
  Resolves-param k s path (ok ss) present is h = (present, is, h)
  Resolves-param k s path (throw e) present is (before, key, rest, shows, split, h, why) =
      (param k ∷ before, key, rest, s ∷ shows, ap (◌∷◌ (param k)) split, (present, is, h), why)

  PathParam-cases : (p : PathParam) → (p ≡ absent) ⊎ ((p ≡ falsy) ⊎ ((v : String) × (p ≡ text v)))
  PathParam-cases absent = inl refl
  PathParam-cases falsy = inr (inl refl)
  PathParam-cases (text v) = inr (inr (v, refl))

  Result-cases : (x : Result String) → ((s : String) × (x ≡ ok s)) ⊎ ((e : Thrown) × (x ≡ throw e))
  Result-cases (ok s) = inl (s, refl)
  Result-cases (throw e) = inr (e, refl)

  -- A path is resolved exactly if none of its parameters is `undefined` or `null` and all of them can be
  -- encoded; literals stay, a parameter becomes its encoded text, and one whose value counts as false,
  -- such as 0 or the empty string, stays in the path as the placeholder. Otherwise the error is that of
  -- the first parameter that is absent or cannot be encoded.
  pub resolve_path_params-Resolves :
      (path : List Segment) → Resolves path (resolve_path_params encode params path)
  unfolding resolve_path_params
  resolve_path_params-Resolves [] = tt
  resolve_path_params-Resolves (literal l ∷ path) =
      Resolves-literal l path (resolve_path_params encode params path)
        (resolve_path_params-Resolves path)
  resolve_path_params-Resolves (param key ∷ path) =
      let rest = resolve_path_params encode params path in
      let resolved = resolve_path_params-Resolves path in
      elim (PathParam-cases (params key)) [
        | inl gone ↦ rw (gone, resolve_path_params) ([], key, path, [], refl, tt, inl (gone, refl))
        | inr (inl empty) ↦
            rw (empty, resolve_path_params)
              (Resolves-param key (placeholder key) path rest (λ e. cc) (rw empty refl) resolved)
        | inr (inr (v, given)) ↦ elim (Result-cases (encode v)) [
          | inl (s, encoded) ↦
              rw (given, encoded, resolve_path_params)
                (Resolves-param key s path rest (λ e. cc) (rw given encoded) resolved)
          | inr (e, fails) ↦
              rw (given, fails, resolve_path_params)
                ([], key, path, [], refl, tt, inr (v, given, fails))
        ]
      ]
