-- ===== src/Base/Strings.antt =====
-- The searches of `str` that the program uses, with non-empty patterns.
use jmapsyncd.Base.{
  ℕ, suc, zero, ◌+◌, ◌-◌, ◌<◌, ◌≤◌, ◌≡◌, refl, ◌∙◌, sym, ap, inl, inr, arith, true, false, Option,
  none, some, List, [], ◌∷◌, ◌++◌, Text, text, ◌==◌, nat_eq, contains, starts_with, length,
  if◌then◌else◌, Option-cases, append-nil,
}

unfoldable pub drop {ℓ} : {A : Type ℓ} → ℕ → List A → List A
drop zero xs = xs
drop (suc n) [] = []
drop (suc n) (x ∷ xs) = drop n xs

unfoldable pub take {ℓ} : {A : Type ℓ} → ℕ → List A → List A
take zero xs = []
take (suc n) [] = []
take (suc n) (x ∷ xs) = x ∷ take n xs

pub take-append-drop {ℓ} : {A : Type ℓ} (n : ℕ) (xs : List A) → take n xs ++ drop n xs ≡ xs
unfolding take drop
take-append-drop zero xs = refl
take-append-drop (suc n) [] = refl
take-append-drop (suc n) (x ∷ xs) = ap (λ r. x ∷ r) (take-append-drop n xs)

drop-nil {ℓ} : {A : Type ℓ} (n : ℕ) → Path (List A) (drop n []) []
unfolding drop
drop-nil zero = refl
drop-nil (suc n) = refl

pub drop-drop {ℓ} : {A : Type ℓ} (m n : ℕ) (xs : List A) → drop n (drop m xs) ≡ drop (m + n) xs
unfolding drop
drop-drop zero n xs = ap (λ k. drop k xs) (omega arith)
drop-drop (suc m) n [] = drop-nil n ∙ sym (drop-nil (suc m + n))
drop-drop (suc m) n (x ∷ xs) =
    let e : suc (m + n) ≡ suc m + n = omega arith in drop-drop m n xs ∙ ap (λ k. drop k (x ∷ xs)) e

-- A piece that is not full is the whole.
pub take-all {ℓ} : {A : Type ℓ} (n : ℕ) (xs : List A) → length (take n xs) < n → take n xs ≡ xs
unfolding take
take-all zero xs h = ground arith
take-all (suc n) [] h = refl
take-all (suc n) (x ∷ xs) h = ap (λ r. x ∷ r) (take-all n xs (omega (arith, h)))

pub length-take-le {ℓ} : {A : Type ℓ} (n : ℕ) (xs : List A) → length (take n xs) ≤ n
unfolding take
length-take-le zero xs = omega arith
length-take-le (suc n) [] = omega arith
length-take-le (suc n) (x ∷ xs) = omega (arith, length-take-le n xs)

pub length-take-le_length {ℓ} : {A : Type ℓ} (n : ℕ) (xs : List A) → length (take n xs) ≤ length xs
unfolding take
length-take-le_length zero xs = omega arith
length-take-le_length (suc n) [] = omega arith
length-take-le_length (suc n) (x ∷ xs) = omega (arith, length-take-le_length n xs)

pub length-drop {ℓ} : {A : Type ℓ} (n : ℕ) (xs : List A) → length (drop n xs) ≡ length xs - n
unfolding drop
length-drop zero xs = omega arith
length-drop (suc n) [] = omega arith
length-drop (suc n) (x ∷ xs) = omega (arith, length-drop n xs)

-- `s.split_once(c)`
unfoldable pub split_once : ℕ → Text → Option (Text × Text)
split_once c [] = none
split_once c (x ∷ xs) = elim (x == c) [
  | true ↦ some ([], xs)
  | false ↦ elim (split_once c xs) [ none ↦ none | some (a, b) ↦ some (x ∷ a, b) ]
]

-- `s.rsplit_once(pat)`: the split at the last occurrence.
unfoldable pub rsplit_once : Text → Text → Option (Text × Text)
unfolding drop starts_with
rsplit_once pat [] = none
rsplit_once pat (x ∷ xs) = elim (rsplit_once pat xs) [
  | some (a, b) ↦ some (x ∷ a, b)
  | none ↦ if starts_with (x ∷ xs) pat then some ([], drop (length pat) (x ∷ xs)) else none
]

-- `s.split(pat).next()`: what stands before the first occurrence.
unfoldable pub before_first : Text → Text → Text
unfolding starts_with
before_first pat [] = []
before_first pat (x ∷ xs) =
    let rest = before_first pat xs in if starts_with (x ∷ xs) pat then [] else x ∷ rest

-- `s.rsplit(c).next()`: what stands behind the last occurrence.
unfoldable pub after_last : ℕ → Text → Text
unfolding rsplit_once
after_last c s = elim (rsplit_once (c ∷ []) s) [ none ↦ s | some (_, b) ↦ b ]

starts_with-drop : (s pat : Text) → starts_with s pat ≡ true → s ≡ pat ++ drop (length pat) s
unfolding starts_with drop
starts_with-drop s [] h = refl
starts_with-drop [] (p ∷ ps) h = cc
starts_with-drop (x ∷ xs) (p ∷ ps) h = ground (arith, starts_with-drop xs ps)

-- The parts and the pattern make up the text.
pub rsplit_once-append : (pat s a b : Text) → rsplit_once pat s ≡ some (a, b) → s ≡ a ++ (pat ++ b)
unfolding rsplit_once
rsplit_once-append pat [] a b h = cc
rsplit_once-append pat (x ∷ xs) a b h = elim (Option-cases (rsplit_once pat xs)) [
  | inl e ↦ ground (arith, e, starts_with-drop (x ∷ xs) pat)
  | inr (q, e) ↦ ground (arith, e, rsplit_once-append pat xs q.0 q.1)
]

-- A text without the first character of the pattern has no occurrence.
pub rsplit_once-none :
    (c : ℕ) (pat s : Text) → contains s c ≡ false → rsplit_once (c ∷ pat) s ≡ none
unfolding rsplit_once contains starts_with
rsplit_once-none c pat [] h = refl
rsplit_once-none c pat (x ∷ xs) h = ground (arith, rsplit_once-none c pat xs)

rsplit_once_mark :
    (flags : Text)
    → contains flags b':' ≡ false
    → rsplit_once (text ":2,") (text ":2," ++ flags) ≡ some ([], flags)
unfolding rsplit_once nat_eq
rsplit_once_mark flags h = rw (rsplit_once-none b':' (text "2,") flags h)

rsplit_once_char :
    (c : ℕ) (s : Text) → contains s c ≡ false → rsplit_once (c ∷ []) (c ∷ s) ≡ some ([], s)
unfolding rsplit_once
rsplit_once_char c s h = ground (arith, rsplit_once-none c [] s h)

-- The search of the last occurrence goes past any text in front.
pub rsplit_once-prefix :
    (pat p s a b : Text)
    → rsplit_once pat s ≡ some (a, b)
    → rsplit_once pat (p ++ s) ≡ some (p ++ a, b)
unfolding rsplit_once
rsplit_once-prefix pat [] s a b h = h
rsplit_once-prefix pat (x ∷ p) s a b h = rw (rsplit_once-prefix pat p s a b h)

-- The marker between the base of a Maildir name and its flags.
abbrev pub flag_mark : Text
flag_mark = text ":2,"

-- What follows the marker holds no colon: the split takes it back.
pub rsplit_once-flag_mark :
    (base flags : Text)
    → contains flags b':' ≡ false
    → rsplit_once flag_mark (base ++ (flag_mark ++ flags)) ≡ some (base, flags)
rsplit_once-flag_mark base flags h =
    rsplit_once-prefix flag_mark base (flag_mark ++ flags) [] flags (rsplit_once_mark flags h)
    ∙ ap (λ (b : Text). some (b, flags)) (append-nil base)

-- The part behind a separator that does not occur in it.
pub after_last-append :
    (c : ℕ) (p s : Text) → contains s c ≡ false → after_last c (p ++ (c ∷ s)) ≡ s
unfolding after_last
after_last-append c p s h =
    rw (rsplit_once-prefix (c ∷ []) p (c ∷ s) [] s (rsplit_once_char c s h), after_last)

pub before_first-append :
    (a b : Text) → contains a b':' ≡ false → before_first flag_mark (a ++ (flag_mark ++ b)) ≡ a
unfolding before_first contains
before_first-append [] b h = ground arith
before_first-append (x ∷ a) b h = ground (arith, before_first-append a b)

pub split_once-append :
    (c : ℕ) (a b : Text) → contains a c ≡ false → split_once c (a ++ (c ∷ b)) ≡ some (a, b)
unfolding split_once contains
split_once-append c [] b h = ground arith
split_once-append c (x ∷ a) b h = ground (arith, split_once-append c a b)
