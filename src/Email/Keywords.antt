-- ===== src/Email/Keywords.antt =====
-- src/sync/email.rs: `KEYWORD_MAP`, and the functions between JMAP keywords, Maildir flags and
-- the keyword JSON of a database row. `serde_json` is the parameter `Serde`.
pub mod Flags
pub mod Merge
pub mod Patch
pub mod Json
use jmapsyncd.Base.{
  ℕ, ◌≡◌, Bool, true, false, Option, none, some, List, [], ◌∷◌, map, Text, text, ◌==◌, nat_eq,
  bool_eq, text_eq, contains, keep, filter_map, if◌then◌else◌,
}
use jmapsyncd.Base.Ascending.{sort, dedup}
use jmapsyncd.Base.BTreeMap
use jmapsyncd.Base.BTreeMap.{BTreeMap, IsSorted}
use jmapsyncd.Base.Dict
use jmapsyncd.Base.Order.{cmp_text, text_ord}
use jmapsyncd.Base.Sort.{sort_by}

-- The value that `serde_json` prints and parses: keyword names with a Boolean.
abbrev pub KeywordMap : Type 0
KeywordMap = BTreeMap Text Bool

-- `serde_json::to_string` and `serde_json::from_str` at that type; `none` is an error.
pub record Serde : Type 0 where
  pub to_string : KeywordMap → Option Text
  pub from_str : Text → Option KeywordMap

-- Printing a map succeeds and parses back, and the empty map prints as `{}`.
pub record IsLawful (j : Serde) : Type 0 where
  pub print :
      (m : KeywordMap)
      → IsSorted m
      → (s : Text) × (j.to_string m ≡ some s) × (j.from_str s ≡ some m)
  pub print_empty : j.to_string [] ≡ some (text "{}")
  pub parse-IsSorted : (s : Text) (m : KeywordMap) → j.from_str s ≡ some m → IsSorted m

abbrev pub keyword_map : List (Text × ℕ)
keyword_map =
    (text "$seen", b'S')
    ∷ (text "$flagged", b'F')
    ∷ (text "$answered", b'R')
    ∷ (text "$draft", b'D')
    ∷ []

-- `KEYWORD_MAP.iter().any(|(_, f)| f == c)`
unfoldable pub is_standard_flag : ℕ → Bool
unfolding contains
is_standard_flag c = contains (map (λ (e : Text × ℕ). e.1) keyword_map) c

-- `KEYWORD_MAP.iter().find(|(kw, _)| kw == k).map(|(_, f)| *f)`
unfoldable pub flag_of : Text → Option ℕ
unfolding Dict.get
flag_of k = Dict.get k keyword_map

unfoldable pub keywords_to_flag_string : List Text → Text
unfolding filter_map flag_of sort dedup
keywords_to_flag_string keywords = dedup (sort (filter_map flag_of keywords))

abbrev pub unwrap_or {ℓ} : {A : Type ℓ} → A → Option A → A
unwrap_or d none = d
unwrap_or d (some a) = a

-- The `collect` of `serialize_keywords` into a `BTreeMap`.
unfoldable pub collect_true : List Text → KeywordMap → KeywordMap
unfolding BTreeMap.insert
collect_true [] m = m
collect_true (k ∷ ks) m = collect_true ks (BTreeMap.insert k true m)

unfoldable pub remove_standard : List (Text × ℕ) → KeywordMap → KeywordMap
unfolding BTreeMap.remove
remove_standard [] m = m
remove_standard ((kw, ch) ∷ rest) m = remove_standard rest (BTreeMap.remove kw m)

unfoldable pub insert_standard : List (Text × ℕ) → Text → KeywordMap → KeywordMap
unfolding BTreeMap.insert contains
insert_standard [] disk_flags m = m
insert_standard ((kw, ch) ∷ rest) disk_flags m =
    insert_standard rest disk_flags
      (if contains disk_flags ch then BTreeMap.insert kw true m else m)

-- The body of `merge_keywords_json` between parsing and printing.
unfoldable pub merge_keywords : KeywordMap → Text → KeywordMap
unfolding remove_standard insert_standard
merge_keywords m disk_flags = insert_standard keyword_map disk_flags (remove_standard keyword_map m)

-- `parsed.get(*kw).copied().unwrap_or(false)`
abbrev pub is_set : KeywordMap → Text → Bool
is_set m kw = unwrap_or false (BTreeMap.get kw m)

-- The body of `extract_standard_flags` after parsing.
unfoldable pub standard_flags : KeywordMap → Text
unfolding BTreeMap.get keep sort
standard_flags m =
    sort (map (λ (e : Text × ℕ). e.1) (keep (λ (e : Text × ℕ). is_set m e.0) keyword_map))

unfoldable pub patch_ops : List (Text × ℕ) → Text → Text → List (Text × Bool)
unfolding contains
patch_ops [] stored_flags new_flags = []
patch_ops ((kw, ch) ∷ rest) stored_flags new_flags =
    let stored_has = contains stored_flags ch in
    let new_has = contains new_flags ch in
    let ops = patch_ops rest stored_flags new_flags in
    if stored_has == new_has then ops else (kw, new_has) ∷ ops

unfoldable pub keyword_patch_ops : Text → Text → List (Text × Bool)
unfolding patch_ops
keyword_patch_ops = patch_ops keyword_map

module _ (j : Serde) where
  abbrev pub parse_map : Text → KeywordMap
  parse_map s = unwrap_or [] (j.from_str s)

  abbrev pub print_map : KeywordMap → Text
  print_map m = unwrap_or (text "{}") (j.to_string m)

  unfoldable pub serialize_keywords : List Text → Text
  unfolding sort_by cmp_text collect_true
  serialize_keywords keywords = print_map (collect_true (sort_by cmp_text keywords) [])

  unfoldable pub merge_keywords_json : Text → Text → Text
  unfolding merge_keywords
  merge_keywords_json stored_json disk_flags =
      print_map (merge_keywords (parse_map stored_json) disk_flags)

  unfoldable pub extract_standard_flags : Text → Text
  unfolding standard_flags
  extract_standard_flags stored_keywords_json = standard_flags (parse_map stored_keywords_json)
