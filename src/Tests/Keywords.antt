-- ===== src/Tests/Keywords.antt =====
-- The keyword theorems on a message that is seen, flagged and labelled.
use jmapsyncd.Base.{
  ℕ, ◌≡◌, ◌≢◌, refl, arith, true, false, some, List, [], ◌∷◌, Text, text, text_eq, nat_eq, bool_eq,
  contains,
}
use jmapsyncd.Base.BTreeMap.{get, IsSorted}
use jmapsyncd.Base.Order.{text_ord}
use jmapsyncd.Email.Keywords.{
  KeywordMap, flag_of, keywords_to_flag_string, keyword_patch_ops, serialize_keywords,
  merge_keywords_json, extract_standard_flags, parse_map,
}
use jmapsyncd.Email.Keywords.Flags.{keywords_to_flag_string-IsFlagString}
use jmapsyncd.Email.Keywords.Json.{
  merge-serialize, extract-serialize, extract-merge, patch-eq-merge,
}
use jmapsyncd.Email.Keywords.Patch.{apply_patch}
use jmapsyncd.Tests.Codec.{codec, codec-IsLawful, encode, parse}

abbrev labels : List Text
labels = text "$seen" ∷ text "work" ∷ text "$flagged" ∷ []

abbrev row : Text
row = encode ((text "$flagged", true) ∷ (text "$seen", true) ∷ (text "work", true) ∷ [])

flags_of_labels : keywords_to_flag_string labels ≡ text "FS"
unfolding keywords_to_flag_string text_eq nat_eq
flags_of_labels = refl

row_of_labels : serialize_keywords codec labels ≡ row
unfolding serialize_keywords encode text_ord
row_of_labels = refl

answered_row :
    merge_keywords_json codec row (text "RS")
    ≡ encode ((text "$answered", true) ∷ (text "$seen", true) ∷ (text "work", true) ∷ [])
unfolding merge_keywords_json encode parse text_ord nat_eq
answered_row = refl

patch_of_row :
    keyword_patch_ops (text "FS") (text "RS")
    ≡ (text "$flagged", false) ∷ (text "$answered", true) ∷ []
unfolding keyword_patch_ops nat_eq bool_eq
patch_of_row = refl

merge-serialize_example :
    merge_keywords_json codec (serialize_keywords codec labels) (keywords_to_flag_string labels)
    ≡ serialize_keywords codec labels
merge-serialize_example = merge-serialize codec codec-IsLawful labels

extract-serialize_example :
    extract_standard_flags codec (serialize_keywords codec labels) ≡ keywords_to_flag_string labels
extract-serialize_example = extract-serialize codec codec-IsLawful labels

extract-merge_example :
    extract_standard_flags codec (merge_keywords_json codec row (keywords_to_flag_string labels))
    ≡ keywords_to_flag_string labels
extract-merge_example =
    extract-merge codec codec-IsLawful row (keywords_to_flag_string labels)
      (keywords_to_flag_string-IsFlagString labels)

abbrev row_map : KeywordMap
row_map = (text "$flagged", true) ∷ (text "$seen", true) ∷ (text "work", true) ∷ []

row_map-StandardSet : (k : Text) (c : ℕ) → flag_of k ≡ some c → get k row_map ≢ some false
unfolding get
row_map-StandardSet k c h = ground arith

row-parse : parse_map codec row ≡ row_map
unfolding parse encode text_ord nat_eq
row-parse = refl

patch-eq-merge_example :
    apply_patch
      (keyword_patch_ops (extract_standard_flags codec row) (text "RS"))
      (parse_map codec row)
    ≡ parse_map codec (merge_keywords_json codec row (text "RS"))
patch-eq-merge_example =
    patch-eq-merge codec codec-IsLawful row (text "RS")
      (λ k c h. rw row-parse (row_map-StandardSet k c h))

row_map-IsSorted : IsSorted row_map
unfolding text_ord
row_map-IsSorted = ((refl, (refl, tt)), ((refl, tt), (tt, tt)))

repeated :
    (k : Text)
    → contains (text "$seen" ∷ text "work" ∷ text "$seen" ∷ []) k
      ≡ contains (text "work" ∷ text "$seen" ∷ []) k
unfolding contains
repeated k = ground arith
