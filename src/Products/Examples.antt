-- ===== src/Products/Examples.antt =====
-- The theorems on the product service at a concrete cache: a table that forgets after a minute.
use nestplatform.Base.{
  ℕ, ◌≡◌, refl, ap, sym, ◌∙◌, String, Option, none, some, Bool, true, false, List, [], ◌∷◌, str_eq,
  if◌then◌else◌, ltb, Bool-cases, inl, inr, arith,
}
use nestplatform.Cacheable.Wrappers.{CacheStore, fulfilled}
use nestplatform.Products.{
  Product, ProductValue, undefined_value, one_product, all_products, find_product, CacheEnvironment,
  installed_get_product, installed_update_product, installed_delete_product,
}
use nestplatform.Products.Serving.{
  Request, get_request, update_request, wait_request, answers, served, served_plainly,
  answers_refine,
}
use nestplatform.Products.Deleting.{deleted_product_served}

abbrev Table : Type 0
Table = String → ProductValue

abbrev is_undefined : ProductValue → Bool
is_undefined undefined_value = true
is_undefined (one_product p) = false
is_undefined (all_products ps) = false

abbrev changed : String → ProductValue → Table → Table
changed k v s j = if str_eq k j then v else s j

abbrev at : String → Option Table → Option ProductValue
at j none = none
at j (some s) = some (s j)

change_reads :
    (k j : String) (v : ProductValue) (s s' : Table)
    → some (changed k v s) ≡ some s'
    → some (s' j) ≡ (if str_eq k j then some v else some (s j))
change_reads k j v s s' h = ap (at j) (sym h) ∙ ground arith

abbrev table : CacheStore ProductValue
table = record {
  State = Table;
  get = λ k s. some (s k);
  set = λ k v ttl s. some (changed k v s);
  del = λ k s. some (changed k undefined_value s);
  missing = undefined_value;
  is_nullish = is_undefined;
  missing_nullish = refl;
  get-set = λ k j v ttl s s' h. change_reads k j v s s' h;
  get-del = λ k j s s' h. change_reads k j undefined_value s s' h;
}

abbrev later : ℕ → Table → Table
later n s k = if ltb n 60 then s k else undefined_value

empty_reads_undefined :
    (v : ProductValue) → some undefined_value ≡ some v → ¬ (is_undefined v ≡ false)
empty_reads_undefined v read real =
    let nothing : is_undefined undefined_value ≡ is_undefined v =
      ap (λ o. elim o [ none ↦ true | some u ↦ is_undefined u ]) read in
    cc

get-later :
    (n : ℕ) (k : String) (s : Table) (v : ProductValue)
    → some (later n s k) ≡ some v
    → is_undefined v ≡ false
    → some (s k) ≡ some v
get-later n k s v got real = elim (Bool-cases (ltb n 60)) [
  | inl soon ↦ sym (ap (λ b. some (if b then s k else undefined_value)) soon) ∙ got
  | inr late ↦
      let empty : some undefined_value ≡ some v =
        sym (ap (λ b. some (if b then s k else undefined_value)) late) ∙ got in
      absurd (empty_reads_undefined v empty real)
]

abbrev environment : CacheEnvironment String
environment = record {
  cache = table;
  product_not_nullish = λ p. refl;
  elapse = later;
  get-elapse = get-later;
  ms = λ s. some 60000;
  v5 = true;
  args_hash = λ a. some "0";
  key_error = "key";
  set_error = "set";
}

abbrev phone : Product
phone = record { id = "1"; name = "iPhone 15"; price = 999 }

abbrev cheaper : Product
cheaper = record { id = "1"; name = "iPhone 15"; price = 899 }

abbrev nothing_cached : Table
nothing_cached k = undefined_value

abbrev requests : List Request
requests =
    get_request "1"
    ∷ update_request cheaper
    ∷ get_request "1"
    ∷ wait_request 90
    ∷ get_request "1"
    ∷ []

answers_refine_example :
    answers environment (served environment) requests (phone ∷ [], nothing_cached)
    ≡ answers environment (served_plainly environment) requests (phone ∷ [], nothing_cached)
answers_refine_example =
    answers_refine environment requests (phone ∷ [], nothing_cached)
      (λ k v ttl s. (changed k v s, refl))
      (λ id v got real. absurd (empty_reads_undefined v got real))

deleted_product_served_example :
    let y = (installed_update_product environment cheaper (phone ∷ [], nothing_cached)).0 in
    let z = (installed_delete_product environment "1" y).0 in
    (find_product "1" y.0 ≡ some cheaper)
    × (find_product "1" z.0 ≡ none)
    × (installed_get_product environment "1" z ≡ (z, fulfilled (one_product cheaper)))
deleted_product_served_example =
    deleted_product_served environment cheaper (phone ∷ [], nothing_cached)
      (λ k v ttl s. (changed k v s, refl))
