-- ===== src/Email/Keywords/Flags.antt =====
-- src/sync/email.rs: the flag strings that keywords give.
use jmapsyncd.Base.{
  ℕ, ◌≡◌, refl, ◌∙◌, sym, ap, ◌⊎◌, inl, inr, arith, Bool-cases, Bool, true, false, some, List, [],
  ◌∷◌, map, Text, text, nat_eq, text_eq, contains, keep, filter_map, if◌then◌else◌,
}
use jmapsyncd.Base.Ascending.{
  sort, IsAscending, contains_ext, contains-dedup, contains-sort, dedup-sort-IsAscending,
}
use jmapsyncd.Email.Keywords.{
  KeywordMap, keyword_map, is_standard_flag, flag_of, keywords_to_flag_string, is_set,
  standard_flags,
}

flag_of_inj : (j k : Text) (c : ℕ) → flag_of j ≡ some c → flag_of k ≡ some c → j ≡ k
unfolding flag_of
flag_of_inj j k c h e = ground arith

flag_of-is_standard_flag : (k : Text) (c : ℕ) → flag_of k ≡ some c → is_standard_flag c ≡ true
unfolding flag_of is_standard_flag
flag_of-is_standard_flag k c h = ground arith

standard_cases :
    (c : ℕ) → is_standard_flag c ≡ true → ((c ≡ b'S') ⊎ (c ≡ b'F')) ⊎ ((c ≡ b'R') ⊎ (c ≡ b'D'))
unfolding is_standard_flag
standard_cases c h = ground arith

-- Every standard flag belongs to a keyword.
keyword_of : (c : ℕ) → is_standard_flag c ≡ true → (k : Text) × (flag_of k ≡ some c)
unfolding flag_of text_eq
keyword_of c h = elim (standard_cases c h) [
  | inl (inl e) ↦ (text "$seen", ap some (sym e))
  | inl (inr e) ↦ (text "$flagged", ap some (sym e))
  | inr (inl e) ↦ (text "$answered", ap some (sym e))
  | inr (inr e) ↦ (text "$draft", ap some (sym e))
]

contains-filter_map :
    (k : Text) (c : ℕ) (ks : List Text)
    → flag_of k ≡ some c
    → contains (filter_map flag_of ks) c ≡ contains ks k
unfolding contains filter_map
contains-filter_map k c [] h = refl
contains-filter_map k c (j ∷ ks) h = ground (arith, flag_of_inj j k c, contains-filter_map k c ks h)

filter_map-is_standard :
    (c : ℕ) (ks : List Text) → contains (filter_map flag_of ks) c ≡ true → is_standard_flag c ≡ true
unfolding contains filter_map
filter_map-is_standard c [] h = cc
filter_map-is_standard c (j ∷ ks) h =
    ground (arith, flag_of-is_standard_flag j c, filter_map-is_standard c ks)

-- A flag is in the string exactly when its keyword is in the list.
pub contains-keywords_to_flag_string :
    (ks : List Text) (k : Text) (c : ℕ)
    → flag_of k ≡ some c
    → contains (keywords_to_flag_string ks) c ≡ contains ks k
unfolding keywords_to_flag_string
contains-keywords_to_flag_string ks k c h =
    contains-dedup (sort (filter_map flag_of ks)) c
    ∙ contains-sort (filter_map flag_of ks) c
    ∙ contains-filter_map k c ks h

-- A string of ascending standard flags: what the program writes into file names.
pub record IsFlagString (s : Text) : Type 0 where
  pub ascending : IsAscending s
  pub standard : (c : ℕ) → contains s c ≡ true → is_standard_flag c ≡ true

pub keywords_to_flag_string-IsFlagString :
    (ks : List Text) → IsFlagString (keywords_to_flag_string ks)
unfolding keywords_to_flag_string
keywords_to_flag_string-IsFlagString ks = record {
  ascending = dedup-sort-IsAscending (filter_map flag_of ks);
  standard = λ c h. filter_map-is_standard c ks (
      sym
        (contains-dedup (sort (filter_map flag_of ks)) c ∙ contains-sort (filter_map flag_of ks) c)
      ∙ h);
}

not-standard :
    (s : Text) (c : ℕ) → IsFlagString s → is_standard_flag c ≡ false → contains s c ≡ false
not-standard s c f h = elim (Bool-cases (contains s c)) [ inl e ↦ cc (f.standard c e) | inr e ↦ e ]

-- Two flag strings that agree on the flag of every keyword are equal.
pub IsFlagString-ext :
    (s t : Text)
    → IsFlagString s
    → IsFlagString t
    → ((k : Text) (c : ℕ) → flag_of k ≡ some c → contains s c ≡ contains t c)
    → s ≡ t
IsFlagString-ext s t f g h = contains_ext s t f.ascending g.ascending λ c.
    elim (Bool-cases (is_standard_flag c)) [
      | inl e ↦ let (k, ek) = keyword_of c e in h k c ek
      | inr e ↦ not-standard s c f e ∙ sym (not-standard t c g e)
    ]

-- Two keyword lists with the same members, in any order and with any repetitions, give the same
-- flag string.
pub keywords_to_flag_string_congr :
    (ks js : List Text)
    → ((k : Text) → contains ks k ≡ contains js k)
    → keywords_to_flag_string ks ≡ keywords_to_flag_string js
keywords_to_flag_string_congr ks js h =
    IsFlagString-ext (keywords_to_flag_string ks) (keywords_to_flag_string js)
      (keywords_to_flag_string-IsFlagString ks) (keywords_to_flag_string-IsFlagString js)
      λ k c e.
        contains-keywords_to_flag_string ks k c e
        ∙ h k
        ∙ sym (contains-keywords_to_flag_string js k c e)

-- The flags of four Boolean answers, in the order of `KEYWORD_MAP`.
abbrev four : Bool → Bool → Bool → Bool → Text
four s f r d =
    let l3 = if d then b'D' ∷ [] else [] in
    let l2 = if r then b'R' ∷ l3 else l3 in
    let l1 = if f then b'F' ∷ l2 else l2 in if s then b'S' ∷ l1 else l1

four-IsAscending : (s f r d : Bool) → IsAscending (sort (four s f r d))
unfolding sort
four-IsAscending s f r d = ground arith

four-standard :
    (s f r d : Bool) (c : ℕ) → contains (four s f r d) c ≡ true → is_standard_flag c ≡ true
unfolding is_standard_flag contains
four-standard s f r d c h = ground arith

-- The flags kept by any predicate on the keywords.
abbrev kept : (Text → Bool) → Text
kept q = map (λ (e : Text × ℕ). e.1) (keep (λ (e : Text × ℕ). q e.0) keyword_map)

kept-four :
    (q : Text → Bool)
    → kept q
      ≡ four (q (text "$seen")) (q (text "$flagged")) (q (text "$answered")) (q (text "$draft"))
unfolding keep
kept-four q = ground arith

contains-kept :
    (q : Text → Bool) (k : Text) (c : ℕ) → flag_of k ≡ some c → contains (kept q) c ≡ q k
unfolding contains flag_of
contains-kept q k c h = rw kept-four (ground arith)

sort-kept-IsFlagString : (q : Text → Bool) → IsFlagString (sort (kept q))
sort-kept-IsFlagString q = rw kept-four (record {
  ascending = four-IsAscending _ _ _ _;
  standard = λ c h. four-standard _ _ _ _ c (sym (contains-sort _ c) ∙ h);
})

pub standard_flags-IsFlagString : (m : KeywordMap) → IsFlagString (standard_flags m)
unfolding standard_flags
standard_flags-IsFlagString m = sort-kept-IsFlagString (is_set m)

pub contains-standard_flags :
    (m : KeywordMap) (k : Text) (c : ℕ)
    → flag_of k ≡ some c
    → contains (standard_flags m) c ≡ is_set m k
unfolding standard_flags
contains-standard_flags m k c h = contains-sort (kept (is_set m)) c ∙ contains-kept (is_set m) k c h
