-- ===== src/Cacheable/Examples.antt =====
-- Tests, and the theorems on caching at concrete inputs: a cache in memory that rejects nothing.
use nestplatform.Base.{
  ◌≡◌, refl, ap, sym, ◌∙◌, String, Option, none, some, true, false, [], ◌∷◌, str_eq, if◌then◌else◌,
  arith,
}
use nestplatform.Cacheable.Keys.{static, built, one, generate_composed_key, own_keys, extract}
use nestplatform.Cacheable.Metadata.{CacheableOptions, millis}
use nestplatform.Cacheable.Wrappers.{
  CacheStore, Setup, fulfilled, rejected, Method, wrap_with_cacheable,
}
use nestplatform.Cacheable.Wrappers.Memo.{cacheable_remembers}

abbrev Table : Type 0
Table = String → Option String

abbrev changed : String → Option String → Table → Table
changed k v s j = if str_eq k j then v else s j

abbrev at : String → Option Table → Option (Option String)
at j none = none
at j (some s) = some (s j)

change_reads :
    (k j : String) (v : Option String) (s s' : Table)
    → some (changed k v s) ≡ some s'
    → some (s' j) ≡ (if str_eq k j then some v else some (s j))
change_reads k j v s s' h = ap (at j) (sym h) ∙ ground arith

abbrev table : CacheStore (Option String)
table = record {
  State = Table;
  get = λ k s. some (s k);
  set = λ k v ttl s. some (changed k v s);
  del = λ k s. some (changed k none s);
  missing = none;
  is_nullish = λ v. elim v [ none ↦ true | some x ↦ false ];
  missing_nullish = refl;
  get-set = λ k j v ttl s s' h. change_reads k j v s s' h;
  get-del = λ k j s s' h. change_reads k j none s s' h;
}

abbrev setup : Setup String (Option String) String
setup = record {
  store = table;
  args_hash = λ a. some a;
  ms = λ s. none;
  v5 = true;
  key_error = "key";
  set_error = "set";
}

abbrev by_user : CacheableOptions String
by_user = record {
  key = some (built (λ a. some (one a)));
  namespace = some (static (one "users"));
  ttl = some (millis 30);
}

abbrev finds : Method setup
finds args s = (s, fulfilled (some "found"))

abbrev fails : Method setup
fails args s = (s, rejected "down")

composed :
    generate_composed_key (λ (a : String). some a) none none "find" "7" ≡ some ("find@7" ∷ [])
unfolding generate_composed_key own_keys
composed = refl

abbrev nothing : Table
nothing k = none

abbrev filled : Table
filled = changed "users:7" (some "found") nothing

cacheable_remembers_example :
    wrap_with_cacheable setup "find" by_user fails "7" filled ≡ (filled, fulfilled (some "found"))
unfolding wrap_with_cacheable generate_composed_key own_keys extract
cacheable_remembers_example =
    cacheable_remembers setup "find" "find" by_user by_user finds fails "7" "7" nothing filled
      (some "found") refl refl refl
