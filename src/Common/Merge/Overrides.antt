-- ===== src/Common/Merge/Overrides.antt =====
-- Every property of a merged object.
use nestplatform.Base.{
  ◌≡◌, refl, sym, ap, ◌∙◌, String, Option, none, some, Bool, true, false, not, ◌&&◌, ◌||◌, str_eq,
  str_eq_iff, arith, inl, inr, Bool-cases, if◌then◌else◌,
}
use nestplatform.Common.Merge.{
  own_entries, undefined_value, null_value, primitive, array, set_of, map_of, is_plain_object,
  plain_or_not, own_of, is_mergeable, Value, Entries, no_entries, entry, get_entry, set_entry, put,
  override_value, override_entries, merge_with_defaults, or_undefined, chosen, merge_entries,
  deep_merge, object,
}

get-set_entry :
    (j k : String) (v : Value) (es : Entries)
    → get_entry j (set_entry k v es) ≡ (if str_eq k j then some v else get_entry j es)
unfolding get_entry set_entry
get-set_entry j k v no_entries = refl
get-set_entry j k v (entry i u es) =
    ground (arith, str_eq_iff i k, str_eq_iff k j, str_eq_iff i j, get-set_entry j k v es)

abbrev pub has_key : String → Entries → Bool
has_key k no_entries = false
has_key k (entry j v es) = str_eq j k || has_key k es

-- The keys of an object are different.
abbrev pub distinct_keys : Entries → Bool
distinct_keys no_entries = true
distinct_keys (entry k v es) = not (has_key k es) && distinct_keys es

-- The first of two, or the second where there is no first.
abbrev pub first_of : Option Value → Option Value → Option Value
first_of none b = b
first_of (some a) b = some a

-- What a property is, given the default and the override.
abbrev pub overridden : Option Value → Option Value → Option Value
overridden d none = d
overridden d (some undefined_value) = d
overridden d (some v) = some (
    if is_plain_object v && plain_or_not d
    then object (merge_with_defaults (own_of d) (some (own_entries v)))
    else v)

same_branches : (b : Bool) (o : Option Value) → o ≡ (if b then o else o)
same_branches true o = refl
same_branches false o = refl

get-put :
    (j k : String) (o : Option Value) (es : Entries)
    → get_entry j (put k o es)
      ≡ (if str_eq k j then first_of o (get_entry j es) else get_entry j es)
get-put j k none es = same_branches (str_eq k j) (get_entry j es)
get-put j k (some v) es = get-set_entry j k v es

get-absent : (k : String) (es : Entries) → has_key k es ≡ false → get_entry k es ≡ none
unfolding get_entry
get-absent k no_entries h = refl
get-absent k (entry j v es) h = ground (arith, get-absent k es)

-- What a property of the result is, given the override, the default and what it was so far.
abbrev pub onto : Option Value → Option Value → Option Value → Option Value
onto none d r = r
onto (some v) d r = first_of (override_value d v) r

absent_after :
    (j k : String) (v : Value) (es : Entries)
    → distinct_keys (entry j v es) ≡ true
    → str_eq j k ≡ true
    → get_entry k es ≡ none
absent_after j k v es distinct same =
    get-absent k es (ap (λ i. has_key i es) (sym ((str_eq_iff j k).0 same)) ∙ ground arith)

get-override_entries :
    (k : String) (result d o : Entries)
    → distinct_keys o ≡ true
    → get_entry k (override_entries result d o)
      ≡ onto (get_entry k o) (get_entry k d) (get_entry k result)
unfolding override_entries get_entry
get-override_entries k result d no_entries distinct = refl
get-override_entries k result d (entry j v es) distinct =
    let later = put j (override_value (get_entry j d) v) result in
    let rest = get-override_entries k later d es (ground arith) in
    let now = get-put k j (override_value (get_entry j d) v) result in
    elim (Bool-cases (str_eq j k)) [
      | inl same ↦
          rest
          ∙ ap (λ o. onto o (get_entry k d) (get_entry k later))
              (absent_after j k v es distinct same)
          ∙ now
          ∙ rw same (
              ap (λ i. first_of (override_value (get_entry i d) v) (get_entry k result))
                ((str_eq_iff j k).0 same))
      | inr other ↦
          rest
          ∙ ap (onto (get_entry k es) (get_entry k d)) {y = get_entry k result}
              (now ∙ rw other refl)
          ∙ rw other refl
    ]

onto-overridden : (o d : Option Value) → onto o d d ≡ overridden d o
unfolding override_value merge_with_defaults
onto-overridden none d = refl
onto-overridden (some undefined_value) d = refl
onto-overridden (some null_value) d = refl
onto-overridden (some (primitive n)) d = refl
onto-overridden (some (array xs)) d = refl
onto-overridden (some (set_of xs)) d = refl
onto-overridden (some (map_of es)) d = refl
onto-overridden (some (object es)) d = refl

-- A property of an object that is merged with defaults is the override, and the default where there
-- is no override or it is `undefined`; where both are objects, it is the two of them merged in the
-- same way. No object of overrides leaves the defaults.
pub get-merge_with_defaults :
    (k : String) (d o : Entries)
    → distinct_keys o ≡ true
    → (get_entry k (merge_with_defaults d (some o)) ≡ overridden (get_entry k d) (get_entry k o))
      × (merge_with_defaults d none ≡ d)
unfolding merge_with_defaults
get-merge_with_defaults k d o distinct =
    (get-override_entries k d d o distinct ∙ onto-overridden (get_entry k o) (get_entry k d), refl)

-- What a property of a deep merge is, given the source's, the target's and what it was so far.
abbrev pub deeply : Option Value → Option Value → Option Value → Option Value
deeply none t r = r
deeply (some v) none r = some v
deeply (some v) (some t) r = some (if is_mergeable t v then deep_merge t v else v)

chosen-deeply :
    (t : Option Value) (v : Value) (r : Option Value)
    → some (chosen t v (deep_merge (or_undefined t) v)) ≡ deeply (some v) t r
chosen-deeply none v r = refl
chosen-deeply (some t) v r = refl

pub get-merge_entries :
    (k : String) (result t s : Entries)
    → distinct_keys s ≡ true
    → get_entry k (merge_entries result t s)
      ≡ deeply (get_entry k s) (get_entry k t) (get_entry k result)
unfolding deep_merge get_entry
get-merge_entries k result t no_entries distinct = refl
get-merge_entries k result t (entry j v es) distinct =
    let new = chosen (get_entry j t) v (deep_merge (or_undefined (get_entry j t)) v) in
    let later = set_entry j new result in
    let rest = get-merge_entries k later t es (ground arith) in
    let now = get-set_entry k j new result in
    elim (Bool-cases (str_eq j k)) [
      | inl same ↦
          rest
          ∙ ap (λ o. deeply o (get_entry k t) (get_entry k later))
              (absent_after j k v es distinct same)
          ∙ now
          ∙ rw same (
              chosen-deeply (get_entry j t) v (get_entry k result)
              ∙ ap (λ i. deeply (some v) (get_entry i t) (get_entry k result))
                  ((str_eq_iff j k).0 same))
      | inr other ↦
          rest
          ∙ ap (deeply (get_entry k es) (get_entry k t)) {y = get_entry k result}
              (now ∙ rw other refl)
          ∙ rw other refl
    ]

-- The deep merge of two objects is an object. A property that only one of them has is that one's; of
-- a property that both have it is the deep merge, where the two values can be merged, and the
-- source's value where not.
pub deep_merge_objects :
    (k : String) (t s : Entries)
    → distinct_keys s ≡ true
    → (m : Entries) × (deep_merge (object t) (object s) ≡ object m)
      × (get_entry k m ≡ deeply (get_entry k s) (get_entry k t) (get_entry k t))
unfolding deep_merge
deep_merge_objects k t s distinct = (merge_entries t t s, refl, get-merge_entries k t t s distinct)
