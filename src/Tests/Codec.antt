-- ===== src/Tests/Codec.antt =====
-- An instance of `Serde`: every law that the theorems ask of `serde_json` can hold. A map is
-- written as a tag for each value, its key with every byte raised by one, and a zero.
use mathlib.Core.Path.{subst}
use jmapsyncd.Base.{
  ℕ, zero, suc, ◌≡◌, refl, ap, inl, inr, arith, Bool, true, false, Option, none, some, [], ◌∷◌,
  ◌++◌, map, Text, text, ◌==◌, nat_eq, if◌then◌else◌, Option-cases,
}
use jmapsyncd.Base.BTreeMap.{IsSorted, Above, insert, insert-IsSorted}
use jmapsyncd.Base.Order.{text_ord}
use jmapsyncd.Email.Keywords.{KeywordMap, Serde, IsLawful}

unfoldable pub encode : KeywordMap → Text
encode [] = text "{}"
encode ((k, b) ∷ m) = (if b then 1 else 2) ∷ (map suc k ++ (0 ∷ encode m))

abbrev pub add_byte : ℕ → KeywordMap → KeywordMap
add_byte c [] = []
add_byte c ((k, b) ∷ m) = (c ∷ k, b) ∷ m

-- Inside a key the value read with its tag is known.
unfoldable pub decode : Option Bool → Text → Option KeywordMap
decode none [] = none
decode none (c ∷ s) = let inside = decode (some (c == 1)) s in if c == b'{' then some [] else inside
decode (some b) [] = none
decode (some b) (zero ∷ s) = elim (decode none s) [ none ↦ none | some m ↦ some (([], b) ∷ m) ]
decode (some b) (suc c ∷ s) = elim (decode (some b) s) [
  | none ↦ none
  | some m ↦ some (add_byte c m)
]

decode-key :
    (b : Bool) (k s : Text) (m : KeywordMap)
    → decode none s ≡ some m
    → decode (some b) (map suc k ++ (0 ∷ s)) ≡ some ((k, b) ∷ m)
unfolding decode
decode-key b [] s m h = rw h
decode-key b (c ∷ k) s m h = rw (decode-key b k s m h)

decode-encode : (m : KeywordMap) → decode none (encode m) ≡ some m
unfolding encode decode nat_eq
decode-encode [] = refl
decode-encode ((k, true) ∷ m) = decode-key true k (encode m) m (decode-encode m)
decode-encode ((k, false) ∷ m) = decode-key false k (encode m) m (decode-encode m)

-- A parsed object goes into a map entry by entry.
unfoldable pub rebuild : KeywordMap → KeywordMap
unfolding insert
rebuild [] = []
rebuild ((k, b) ∷ m) = insert k b (rebuild m)

rebuild-IsSorted : (m : KeywordMap) → IsSorted (rebuild m)
unfolding rebuild
rebuild-IsSorted [] = tt
rebuild-IsSorted ((k, b) ∷ m) = insert-IsSorted k b (rebuild m) (rebuild-IsSorted m)

insert-Above : (k : Text) (b : Bool) (m : KeywordMap) → Above k m → insert k b m ≡ (k, b) ∷ m
unfolding insert
insert-Above k b [] a = refl
insert-Above k b ((j, c) ∷ m) a = ground arith

rebuild_sorted : (m : KeywordMap) → IsSorted m → rebuild m ≡ m
unfolding rebuild
rebuild_sorted [] s = refl
rebuild_sorted ((k, b) ∷ m) s = rw (rebuild_sorted m s.1) (insert-Above k b m s.0)

unfoldable pub parse : Text → Option KeywordMap
unfolding decode rebuild
parse s = elim (decode none s) [ none ↦ none | some m ↦ some (rebuild m) ]

abbrev pub codec : Serde
codec = record { to_string = λ m. some (encode m); from_str = parse }

parse-encode : (m : KeywordMap) → IsSorted m → parse (encode m) ≡ some m
unfolding parse
parse-encode m s = rw (decode-encode m, parse) (ap some (rebuild_sorted m s))

rebuilt : (s : Text) (n m : KeywordMap) → decode none s ≡ some n → parse s ≡ some m → rebuild n ≡ m
unfolding parse
rebuilt s n m e h = ground arith

parse-IsSorted : (s : Text) (m : KeywordMap) → parse s ≡ some m → IsSorted m
unfolding parse
parse-IsSorted s m h = elim (Option-cases (decode none s)) [
  | inl e ↦ cc (rw (e, parse) at h)
  | inr (n, e) ↦ subst IsSorted (rebuilt s n m e h) (rebuild-IsSorted n)
]

pub codec-IsLawful : IsLawful codec
unfolding encode
codec-IsLawful = record {
  print = λ m s. (encode m, refl, parse-encode m s);
  print_empty = refl;
  parse-IsSorted = parse-IsSorted;
}
