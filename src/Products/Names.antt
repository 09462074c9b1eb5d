-- ===== src/Products/Names.antt =====
-- The names under which the products are cached: which are equal, and which are not.
use nestplatform.Base.{
  ◌≡◌, ◌≢◌, refl, ap, sym, ◌∙◌, String, false, str_eq, str_append, str_eq_iff, arith,
}
use text.Mathlib.TextLemmas.{append_cancel_left, append_inj, append_assoc as str_append_assoc}

abbrev pub in_inventory : String → String
in_inventory k = str_append "inventory" (str_append ":" k)

abbrev pub product_key : String → String
product_key id = in_inventory (str_append "product:" id)

in_inventory_injective : (a b : String) → in_inventory a ≡ in_inventory b → a ≡ b
in_inventory_injective a b h =
    append_cancel_left ":" a b
      (append_cancel_left "inventory" (str_append ":" a) (str_append ":" b) h)

product_key_injective : (a b : String) → product_key a ≡ product_key b → a ≡ b
product_key_injective a b h =
    append_cancel_left "product:" a b
      (in_inventory_injective (str_append "product:" a) (str_append "product:" b) h)

pub product_key_eq : (a b : String) → str_eq (product_key a) (product_key b) ≡ str_eq a b
product_key_eq a b = ground (
  arith,
  str_eq_iff (product_key a) (product_key b),
  str_eq_iff a b,
  product_key_injective a b,
  ap product_key {x = a} {y = b},
)

starts_differ : str_eq "deletePr" "product:" ≡ false
starts_differ = refl

-- A name with another start of the same length.
start_differs : (x id : String) → str_append "deletePr" x ≢ str_append "product:" id
start_differs x id h =
    ground (arith, starts_differ, str_eq_iff "deletePr" "product:", (append_inj h refl).0)

-- The key of a deletion starts in another way.
pub deletion_key_differs :
    (h id : String)
    → str_eq (in_inventory (str_append "deleteProduct" (str_append "@" h))) (product_key id) ≡ false
deletion_key_differs h id =
    let key = str_append "deleteProduct" (str_append "@" h) in
    let apart : in_inventory key ≢ product_key id = λ e.
      start_differs (str_append "oduct" (str_append "@" h)) id (
        sym (str_append_assoc "deletePr" "oduct" (str_append "@" h))
        ∙ in_inventory_injective key (str_append "product:" id) e) in
    ground (arith, str_eq_iff (in_inventory key) (product_key id), apart)

clearing_starts_differ : str_eq "c" "a" ≡ false
clearing_starts_differ = refl

clearing_start_differs : (x y : String) → str_append "c" x ≢ str_append "a" y
clearing_start_differs x y h =
    ground (arith, clearing_starts_differ, str_eq_iff "c" "a", (append_inj h refl).0)

-- So does the key of a clearing of all products.
pub clearing_key_differs :
    (h : String)
    → str_eq (str_append "clearAllProductsCache" (str_append "@" h)) "all-products" ≡ false
clearing_key_differs h =
    let key = str_append "clearAllProductsCache" (str_append "@" h) in
    let apart : key ≢ "all-products" = λ e.
      clearing_start_differs (str_append "learAllProductsCache" (str_append "@" h)) "ll-products"
        (sym (str_append_assoc "c" "learAllProductsCache" (str_append "@" h)) ∙ e) in
    ground (arith, str_eq_iff key "all-products", apart)
