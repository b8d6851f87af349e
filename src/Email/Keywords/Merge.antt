-- ===== src/Email/Keywords/Merge.antt =====
-- src/sync/email.rs: what `merge_keywords_json` keeps and what it replaces.
use jmapsyncd.Base.{
  ℕ, ◌≡◌, ◌≢◌, refl, ◌∙◌, sym, ap, inl, inr, arith, Bool-cases, Bool, true, false, Option, none,
  some, List, [], ◌∷◌, Text, text_eq, nat_eq, contains, if◌then◌else◌,
}
use jmapsyncd.Base.BTreeMap.{
  get, insert, remove, IsSorted, get-insert_self, get-insert_ne, get-remove_self, get-remove_ne,
  insert-IsSorted, remove-IsSorted, get_ext,
}
use jmapsyncd.Base.Dict
use jmapsyncd.Base.Order.{text_ord}
use jmapsyncd.Email.Keywords.Flags.{
  IsFlagString, IsFlagString-ext, standard_flags-IsFlagString, contains-standard_flags,
}
use jmapsyncd.Email.Keywords.{
  KeywordMap, keyword_map, flag_of, is_set, standard_flags, remove_standard, insert_standard,
  merge_keywords,
}

remove_standard-IsSorted :
    (kws : List (Text × ℕ)) (m : KeywordMap) → IsSorted m → IsSorted (remove_standard kws m)
unfolding remove_standard
remove_standard-IsSorted [] m s = s
remove_standard-IsSorted ((kw, _) ∷ rest) m s =
    remove_standard-IsSorted rest (remove kw m) (remove-IsSorted kw m s)

insert_standard-IsSorted :
    (kws : List (Text × ℕ)) (d : Text) (m : KeywordMap)
    → IsSorted m
    → IsSorted (insert_standard kws d m)
unfolding insert_standard
insert_standard-IsSorted [] d m s = s
insert_standard-IsSorted ((kw, c) ∷ rest) d m s = elim (Bool-cases (contains d c)) [
  | inl e ↦ rw e (insert_standard-IsSorted rest d (insert kw true m) (insert-IsSorted kw true m s))
  | inr e ↦ rw e (insert_standard-IsSorted rest d m s)
]

pub merge_keywords-IsSorted :
    (m : KeywordMap) (d : Text) → IsSorted m → IsSorted (merge_keywords m d)
unfolding merge_keywords
merge_keywords-IsSorted m d s =
    insert_standard-IsSorted keyword_map d (remove_standard keyword_map m)
      (remove_standard-IsSorted keyword_map m s)

abbrev absent_if : Option ℕ → Option Bool → Option Bool
absent_if none old = old
absent_if (some _) old = none

abbrev set_if : Option ℕ → Text → Option Bool → Option Bool
set_if none d old = old
set_if (some c) d old = if contains d c then some true else old

get-remove_standard :
    (kws : List (Text × ℕ)) (k : Text) (m : KeywordMap)
    → IsSorted m
    → get k (remove_standard kws m) ≡ absent_if (Dict.get k kws) (get k m)
unfolding remove_standard Dict.get
get-remove_standard [] k m s = refl
get-remove_standard ((kw, c) ∷ rest) k m s = ground (
  arith,
  get-remove_standard rest k (remove kw m) (remove-IsSorted kw m s),
  get-remove_self kw m s,
  get-remove_ne k kw m s,
)

abbrev pub AreDistinct : List (Text × ℕ) → Type 0
AreDistinct [] = Unit
AreDistinct ((kw, _) ∷ rest) = (Dict.get kw rest ≡ none) × AreDistinct rest

get-insert_standard :
    (kws : List (Text × ℕ)) (d : Text) (k : Text) (m : KeywordMap)
    → AreDistinct kws
    → get k (insert_standard kws d m) ≡ set_if (Dict.get k kws) d (get k m)
unfolding insert_standard Dict.get
get-insert_standard [] d k m h = refl
get-insert_standard ((kw, c) ∷ rest) d k m h = ground (
  arith,
  get-insert_standard rest d k (insert kw true m) h.1,
  get-insert_standard rest d k m h.1,
  get-insert_self kw true m,
  get-insert_ne k kw true m,
)

pub keyword_map-AreDistinct : AreDistinct keyword_map
unfolding Dict.get text_eq
keyword_map-AreDistinct = (refl, (refl, (refl, (refl, tt))))

-- What the merge holds at a keyword: at a standard one, what the disk flags say.
abbrev pub merged : Option ℕ → Text → Option Bool → Option Bool
merged none d old = old
merged (some c) d old = if contains d c then some true else none

merged_lem :
    (o : Option ℕ) (d : Text) (old : Option Bool) → set_if o d (absent_if o old) ≡ merged o d old
merged_lem none d old = refl
merged_lem (some c) d old = refl

get-insert-remove :
    (kws : List (Text × ℕ)) (m : KeywordMap) (d : Text) (k : Text)
    → IsSorted m
    → AreDistinct kws
    → get k (insert_standard kws d (remove_standard kws m)) ≡ merged (Dict.get k kws) d (get k m)
get-insert-remove kws m d k s h =
    get-insert_standard kws d k (remove_standard kws m) h
    ∙ ap (set_if (Dict.get k kws) d) (get-remove_standard kws k m s)
    ∙ merged_lem (Dict.get k kws) d (get k m)

-- The merge answers from the disk flags at a standard keyword, and as before at any other.
pub get-merge_keywords :
    (m : KeywordMap) (d : Text) (k : Text)
    → IsSorted m
    → get k (merge_keywords m d) ≡ merged (flag_of k) d (get k m)
unfolding merge_keywords flag_of
get-merge_keywords m d k s = get-insert-remove keyword_map m d k s keyword_map-AreDistinct

merged_twice :
    (o : Option ℕ) (d e : Text) (old : Option Bool) → merged o e (merged o d old) ≡ merged o e old
merged_twice none d e old = refl
merged_twice (some c) d e old = refl

-- A later merge overrides an earlier one; with the same flags it changes nothing.
pub merge_keywords-merge_keywords :
    (m : KeywordMap) (d e : Text)
    → IsSorted m
    → merge_keywords (merge_keywords m d) e ≡ merge_keywords m e
merge_keywords-merge_keywords m d e s =
    let t = merge_keywords-IsSorted m d s in
    get_ext (merge_keywords (merge_keywords m d) e) (merge_keywords m e)
      (merge_keywords-IsSorted (merge_keywords m d) e t) (merge_keywords-IsSorted m e s)
      λ k.
        get-merge_keywords (merge_keywords m d) e k t
        ∙ ap (merged (flag_of k) e) (get-merge_keywords m d k s)
        ∙ merged_twice (flag_of k) d e (get k m)
        ∙ sym (get-merge_keywords m e k s)

-- The standard flags of a merged map are those of the disk flags.
pub contains-standard_flags-merge :
    (m : KeywordMap) (d : Text) (k : Text) (c : ℕ)
    → IsSorted m
    → flag_of k ≡ some c
    → contains (standard_flags (merge_keywords m d)) c ≡ contains d c
contains-standard_flags-merge m d k c s h =
    ground (arith, contains-standard_flags (merge_keywords m d) k c h, get-merge_keywords m d k s)

pub standard_flags-merge :
    (m : KeywordMap) (d : Text)
    → IsSorted m
    → IsFlagString d
    → standard_flags (merge_keywords m d) ≡ d
standard_flags-merge m d s f =
    IsFlagString-ext (standard_flags (merge_keywords m d)) d
      (standard_flags-IsFlagString (merge_keywords m d)) f
      λ k c h. contains-standard_flags-merge m d k c s h

-- A standard keyword that the map holds is set: servers send only set keywords.
abbrev pub StandardSet : KeywordMap → Type 0
StandardSet m = (k : Text) (c : ℕ) → flag_of k ≡ some c → get k m ≢ some false

merged_self :
    (m : KeywordMap) (d k : Text) (o : Option ℕ)
    → flag_of k ≡ o
    → ((k : Text) (c : ℕ) → flag_of k ≡ some c → (contains d c ≡ is_set m k))
    → StandardSet m
    → merged o d (get k m) ≡ get k m
merged_self m d k none h same set = refl
merged_self m d k (some c) h same set = ground (arith, same k c h, set k c h)

-- A merge with flags that say what the map says already changes nothing.
pub merge_keywords_same :
    (m : KeywordMap) (d : Text)
    → IsSorted m
    → StandardSet m
    → ((k : Text) (c : ℕ) → flag_of k ≡ some c → (contains d c ≡ is_set m k))
    → merge_keywords m d ≡ m
merge_keywords_same m d s set same =
    get_ext (merge_keywords m d) m (merge_keywords-IsSorted m d s) s
      λ k. get-merge_keywords m d k s ∙ merged_self m d k (flag_of k) refl same set
