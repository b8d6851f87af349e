-- ===== src/Daemon/Headers/Split.antt =====
-- src/daemon/submit.rs: where a message with one more header line in front is split.
use jmapsyncd.Base.{
  ℕ, suc, ◌+◌, ◌≡◌, refl, ap, inl, inr, arith, Bool, true, false, not, ◌||◌, Option, none, some, [],
  ◌∷◌, ◌++◌, Text, ◌==◌, nat_eq, all, starts_with, length, Option-cases,
}
use jmapsyncd.Base.Strings.{drop, take}
use jmapsyncd.Daemon.Headers.{find_subseq, crlf, split_header_body}

-- A byte that neither ends a line nor continues one.
abbrev pub is_plain : ℕ → Bool
is_plain b = not (b == 10 || (b == 13 || (b == b' ' || b == 9)))

-- A text that begins with such a byte.
abbrev pub StartsPlain : Text → Type 0
StartsPlain [] = ⊥
StartsPlain (b ∷ bs) = is_plain b ≡ true

-- A text without the end of a line.
abbrev pub is_line : Text → Bool
is_line = all λ b. not (b == 10)

abbrev shift : ℕ → Option ℕ → Option ℕ
shift n none = none
shift n (some k) = some (n + k)

shift-suc :
    (n : ℕ) (o : Option ℕ)
    → elim (shift n o) [ none ↦ none | some k ↦ some (suc k) ] ≡ shift (suc n) o
shift-suc n none = refl
shift-suc n (some k) = ap some (omega arith)

no-blank :
    (line t : Text)
    → is_line line ≡ true
    → StartsPlain t
    → starts_with (line ++ (13 ∷ 10 ∷ t)) (13 ∷ 10 ∷ 13 ∷ 10 ∷ []) ≡ false
unfolding all starts_with
no-blank [] [] h p = elim p [ ]
no-blank [] (b ∷ t) h p = ground (arith, p)
no-blank (a ∷ []) t h p = ground (arith, h)
no-blank (a ∷ b ∷ line) t h p = ground (arith, h)

pub find-crlf :
    (line t : Text)
    → is_line line ≡ true
    → StartsPlain t
    → find_subseq (crlf ++ crlf) (line ++ (crlf ++ t))
      ≡ shift (length line + 2) (find_subseq (crlf ++ crlf) t)
unfolding find_subseq all starts_with
find-crlf [] [] h p = elim p [ ]
find-crlf [] (b ∷ t) h p = ground (arith, p, no-blank [] (b ∷ t) h p)
find-crlf (a ∷ line) t h p =
    ground (arith, find-crlf line t ground (arith, h), no-blank (a ∷ line) t h p)

pub find-lf :
    (line t : Text)
    → is_line line ≡ true
    → StartsPlain t
    → find_subseq (10 ∷ 10 ∷ []) (line ++ (crlf ++ t))
      ≡ shift (length line + 2) (find_subseq (10 ∷ 10 ∷ []) t)
unfolding find_subseq all starts_with
find-lf [] [] h p = elim p [ ]
find-lf [] (b ∷ t) h p = ground (arith, p)
find-lf (a ∷ line) t h p = ground (arith, h, find-lf line t ground (arith, h))

pub take-append : (a b : Text) (n : ℕ) → take (length a + n) (a ++ b) ≡ a ++ take n b
unfolding take
take-append [] b n = ap (λ k. take k b) (omega arith)
take-append (x ∷ a) b n =
    let e : length (x ∷ a) + n ≡ suc (length a + n) = omega arith in
    rw e (ap (λ r. x ∷ r) (take-append a b n))

pub drop-append : (a b : Text) (n : ℕ) → drop (length a + n) (a ++ b) ≡ drop n b
unfolding drop
drop-append [] b n = ap (λ k. drop k b) (omega arith)
drop-append (x ∷ a) b n =
    let e : length (x ∷ a) + n ≡ suc (length a + n) = omega arith in rw e (drop-append a b n)

pub take-line :
    (line t : Text) (n : ℕ)
    → take (length line + 2 + n) (line ++ (crlf ++ t)) ≡ line ++ (crlf ++ take n t)
unfolding take
take-line line t n =
    let e : length line + 2 + n ≡ length line + suc (suc n) = omega arith in
    rw e (take-append line (crlf ++ t) (suc (suc n)))

pub drop-line :
    (line t : Text) (n : ℕ) → drop (length line + 2 + n) (line ++ (crlf ++ t)) ≡ drop n t
unfolding drop
drop-line line t n =
    let e : length line + 2 + n ≡ length line + suc (suc n) = omega arith in
    rw e (drop-append line (crlf ++ t) (suc (suc n)))

cut :
    (line t : Text) (k n : ℕ)
    → Path
        (Text × Text)
        (
          take (length line + 2 + k + n) (line ++ (crlf ++ t)),
          drop (length line + 2 + k + n) (line ++ (crlf ++ t)),
        )
        (line ++ (crlf ++ take (k + n) t), drop (k + n) t)
cut line t k n =
    let e : length line + 2 + k + n ≡ length line + 2 + (k + n) = omega arith in
    rw (e, take-line line t (k + n), drop-line line t (k + n)) refl

-- One more line in front goes to the header.
pub split_header_body-line :
    (line t : Text)
    → is_line line ≡ true
    → StartsPlain t
    → split_header_body (line ++ (crlf ++ t))
      ≡ (line ++ (crlf ++ (split_header_body t).0), (split_header_body t).1)
unfolding split_header_body
split_header_body-line line t h p = elim (Option-cases (find_subseq (crlf ++ crlf) t)) [
  | inr (k, e) ↦ rw (split_header_body, find-crlf line t h p, e) (cut line t k 4)
  | inl e ↦ elim (Option-cases (find_subseq (10 ∷ 10 ∷ []) t)) [
    | inr (k, g) ↦
        rw (split_header_body, find-crlf line t h p, e, find-lf line t h p, g) (cut line t k 2)
    | inl g ↦ rw (split_header_body, find-crlf line t h p, e, find-lf line t h p, g) refl
  ]
]
