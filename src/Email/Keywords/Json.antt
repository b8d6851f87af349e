-- ===== src/Email/Keywords/Json.antt =====
-- src/sync/email.rs: the keyword column of a row, as the JSON that the functions read and write.
use jmapsyncd.Base.{
  ◌≡◌, refl, ◌∙◌, sym, ap, inl, inr, arith, Option-cases, Bool, true, Option, none, some, List, [],
  ◌∷◌, Text, text, text_eq, nat_eq, contains, if◌then◌else◌,
}
use jmapsyncd.Base.BTreeMap.{get, insert, IsSorted, get-insert_self, get-insert_ne, insert-IsSorted}
use jmapsyncd.Base.Order.{cmp_text, text_ord}
use jmapsyncd.Base.Sort.{sort_by, contains-sort_by}
use jmapsyncd.Email.Keywords.{
  KeywordMap, Serde, IsLawful, keywords_to_flag_string, is_set, unwrap_or, collect_true,
  merge_keywords, standard_flags, keyword_patch_ops, parse_map, print_map, serialize_keywords,
  merge_keywords_json, extract_standard_flags,
}
use jmapsyncd.Email.Keywords.Flags.{
  IsFlagString, IsFlagString-ext, contains-keywords_to_flag_string,
  keywords_to_flag_string-IsFlagString, standard_flags-IsFlagString, contains-standard_flags,
}
use jmapsyncd.Email.Keywords.Merge.{
  merge_keywords-IsSorted, merge_keywords-merge_keywords, merge_keywords_same, standard_flags-merge,
  StandardSet,
}
use jmapsyncd.Email.Keywords.Patch.{apply_patch, apply_patch-eq-merge}

collect_true-IsSorted :
    (ks : List Text) (m : KeywordMap) → IsSorted m → IsSorted (collect_true ks m)
unfolding collect_true
collect_true-IsSorted [] m s = s
collect_true-IsSorted (k ∷ ks) m s =
    collect_true-IsSorted ks (insert k true m) (insert-IsSorted k true m s)

get-collect_true :
    (ks : List Text) (m : KeywordMap) (k : Text)
    → get k (collect_true ks m) ≡ (if contains ks k then some true else get k m)
unfolding collect_true contains
get-collect_true [] m k = refl
get-collect_true (j ∷ ks) m k = ground (
  arith,
  get-collect_true ks (insert j true m) k,
  get-insert_self j true m,
  get-insert_ne k j true m,
)

-- What a pull stores for a message with these keywords.
abbrev stored : List Text → KeywordMap
stored ks = collect_true (sort_by cmp_text ks) []

get-stored :
    (ks : List Text) (k : Text) → get k (stored ks) ≡ (if contains ks k then some true else none)
unfolding get
get-stored ks k =
    get-collect_true (sort_by cmp_text ks) [] k
    ∙ ap (λ (b : Bool). if b then some true else none) (contains-sort_by cmp_text ks k)

stored-IsSorted : (ks : List Text) → IsSorted (stored ks)
stored-IsSorted ks = collect_true-IsSorted (sort_by cmp_text ks) [] tt

is_set-stored : (ks : List Text) (k : Text) → is_set (stored ks) k ≡ contains ks k
is_set-stored ks k = ground (arith, get-stored ks k)

stored-StandardSet : (ks : List Text) → StandardSet (stored ks)
stored-StandardSet ks k c h = ground (arith, get-stored ks k)

module _ (j : Serde) (l : IsLawful j) where
  pub parse-print : (m : KeywordMap) → IsSorted m → parse_map j (print_map j m) ≡ m
  parse-print m s =
      let (t, printed, parsed) = l.print m s in
      ap (λ (o : Option Text). parse_map j (unwrap_or (text "{}") o)) printed
      ∙ ap (unwrap_or []) parsed

  pub parse_map-IsSorted : (s : Text) → IsSorted (parse_map j s)
  parse_map-IsSorted s = elim (Option-cases (j.from_str s)) [
    | inl e ↦ rw e tt
    | inr (m, e) ↦ rw e (l.parse-IsSorted s m e)
  ]

  parse-merge :
      (s d : Text) → parse_map j (merge_keywords_json j s d) ≡ merge_keywords (parse_map j s) d
  unfolding merge_keywords_json
  parse-merge s d =
      parse-print (merge_keywords (parse_map j s) d)
        (merge_keywords-IsSorted (parse_map j s) d (parse_map-IsSorted s))

  parse-serialize : (ks : List Text) → parse_map j (serialize_keywords j ks) ≡ stored ks
  unfolding serialize_keywords
  parse-serialize ks = parse-print (stored ks) (stored-IsSorted ks)

  -- A second merge overrides the first: the row depends on the stored non-standard keywords and
  -- the last disk flags alone. `serde_json` is assumed to parse back what it prints.
  pub merge_keywords_json_twice :
      (s d e : Text)
      → merge_keywords_json j (merge_keywords_json j s d) e ≡ merge_keywords_json j s e
  merge_keywords_json_twice s d e =
      unfold merge_keywords_json in
      ap (λ (m : KeywordMap). print_map j (merge_keywords m e)) (parse-merge s d)
      ∙ ap (print_map j) (merge_keywords-merge_keywords (parse_map j s) d e (parse_map-IsSorted s))

  -- For any keywords that the server lists, merging the flags that a pull puts in the file name
  -- into the row that the pull writes gives the same row: the write-back finds nothing to push
  -- after a pull. `serde_json` is assumed to parse back what it prints.
  pub merge-serialize :
      (ks : List Text)
      → merge_keywords_json j (serialize_keywords j ks) (keywords_to_flag_string ks)
        ≡ serialize_keywords j ks
  unfolding merge_keywords_json
  merge-serialize ks =
      ap (λ (m : KeywordMap). print_map j (merge_keywords m (keywords_to_flag_string ks)))
        (parse-serialize ks)
      ∙ ap (print_map j) (
          merge_keywords_same (stored ks) (keywords_to_flag_string ks) (stored-IsSorted ks)
            (stored-StandardSet ks)
            λ k c h. contains-keywords_to_flag_string ks k c h ∙ sym (is_set-stored ks k))
      ∙ unfold serialize_keywords in refl

  -- For any keywords that the server lists, the standard flags read from the row that a pull
  -- writes are the flags that it puts in the file name. `serde_json` is assumed to parse back what
  -- it prints.
  pub extract-serialize :
      (ks : List Text)
      → extract_standard_flags j (serialize_keywords j ks) ≡ keywords_to_flag_string ks
  unfolding extract_standard_flags
  extract-serialize ks =
      ap standard_flags (parse-serialize ks)
      ∙ IsFlagString-ext (standard_flags (stored ks)) (keywords_to_flag_string ks)
          (standard_flags-IsFlagString (stored ks)) (keywords_to_flag_string-IsFlagString ks)
          λ k c h.
            contains-standard_flags (stored ks) k c h
            ∙ is_set-stored ks k
            ∙ sym (contains-keywords_to_flag_string ks k c h)

  -- For any stored row and disk flags that are standard, ascending and without repetition, the
  -- standard flags read back from the merged row are the disk flags. `serde_json` is assumed to
  -- parse back what it prints.
  pub extract-merge :
      (s d : Text) → IsFlagString d → extract_standard_flags j (merge_keywords_json j s d) ≡ d
  unfolding extract_standard_flags
  extract-merge s d f =
      ap standard_flags (parse-merge s d)
      ∙ standard_flags-merge (parse_map j s) d (parse_map-IsSorted s) f

  -- For a stored row in which no standard keyword is `false`, applying the patches that the
  -- write-back sends to the stored keywords gives the keywords of the row it writes after the
  -- push. `serde_json` is assumed to parse back what it prints.
  pub patch-eq-merge :
      (s d : Text)
      → StandardSet (parse_map j s)
      → apply_patch (keyword_patch_ops (extract_standard_flags j s) d) (parse_map j s)
        ≡ parse_map j (merge_keywords_json j s d)
  unfolding extract_standard_flags
  patch-eq-merge s d set =
      apply_patch-eq-merge (parse_map j s) d (parse_map-IsSorted s) set ∙ sym (parse-merge s d)
