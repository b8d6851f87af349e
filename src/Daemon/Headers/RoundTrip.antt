-- ===== src/Daemon/Headers/RoundTrip.antt =====
-- src/daemon/submit.rs: taking out the Family-2 headers that were put in.
use jmapsyncd.Base.{
  ℕ, zero, suc, ◌+◌, ◌≤◌, ◌≡◌, refl, sym, ap, ◌∙◌, inl, inr, arith, true, [], ◌∷◌, ◌++◌,
  append_assoc, Text, text, nat_eq, all, length, length-append, Option-cases, if◌then◌else◌,
}
use jmapsyncd.Base.Strings.{drop, take, length-drop}
use jmapsyncd.Daemon.Headers.{
  find_subseq, crlf, split_header_body, find_line_end, starts_with_folded_continuation,
  is_family2_header_line, line_starts_with_header_ci, folded, strip_lines, strip_family2_headers,
  inject_family2_headers,
}
use jmapsyncd.Daemon.Headers.Split.{
  StartsPlain, is_line, split_header_body-line, take-append, drop-append,
}

pub find_line_end-line :
    (line t : Text) → is_line line ≡ true → find_line_end (line ++ (crlf ++ t)) ≡ length line + 2
unfolding find_line_end all nat_eq
find_line_end-line [] t h = refl
find_line_end-line (a ∷ line) t h = ground (arith, h, find_line_end-line line t)

pub find_line_end-pos : (b : ℕ) (bs : Text) → 1 ≤ find_line_end (b ∷ bs)
unfolding find_line_end
find_line_end-pos b bs = ground arith

folded-plain : (fuel : ℕ) (t : Text) → StartsPlain t → folded fuel t ≡ 0
unfolding folded starts_with_folded_continuation
folded-plain zero t p = refl
folded-plain (suc fuel) [] p = refl
folded-plain (suc fuel) (b ∷ t) p = ground (arith, p)

take-StartsPlain : (k n : ℕ) (t : Text) → StartsPlain t → StartsPlain (take (k + suc n) t)
unfolding take
take-StartsPlain k n [] p = elim p [ ]
take-StartsPlain k n (b ∷ t) p = let e : k + suc n ≡ suc (k + n) = omega arith in rw e p

split_header_body-StartsPlain : (t : Text) → StartsPlain t → StartsPlain (split_header_body t).0
unfolding split_header_body
split_header_body-StartsPlain t p = elim (Option-cases (find_subseq (crlf ++ crlf) t)) [
  | inr (k, e) ↦ rw (split_header_body, e) (take-StartsPlain k 3 t p)
  | inl e ↦ elim (Option-cases (find_subseq (10 ∷ 10 ∷ []) t)) [
    | inr (k, g) ↦ rw (split_header_body, e, g) (take-StartsPlain k 1 t p)
    | inl g ↦ rw (split_header_body, e, g) p
  ]
]

-- More fuel than bytes changes nothing.
strip_lines_fuel :
    (m n : ℕ) (h : Text) → length h ≤ m → length h ≤ n → strip_lines m h ≡ strip_lines n h
unfolding strip_lines
strip_lines_fuel zero zero h a b = refl
strip_lines_fuel zero (suc n) [] a b = refl
strip_lines_fuel zero (suc n) (x ∷ h) a b = ground (arith, a)
strip_lines_fuel (suc m) zero [] a b = refl
strip_lines_fuel (suc m) zero (x ∷ h) a b = ground (arith, b)
strip_lines_fuel (suc m) (suc n) [] a b = refl
strip_lines_fuel (suc m) (suc n) (x ∷ h) a b =
    let line_end = find_line_end (x ∷ h) in
    let skip = line_end + folded (length (x ∷ h)) (drop line_end (x ∷ h)) in
    ap
      (λ rest.
        if is_family2_header_line (take line_end (x ∷ h)) then rest else take skip (x ∷ h) ++ rest)
      (strip_lines_fuel m n (drop skip (x ∷ h))
        (omega (arith, a, find_line_end-pos x h, length-drop skip (x ∷ h)))
        (omega (arith, b, find_line_end-pos x h, length-drop skip (x ∷ h))))

-- A line in front that is a Family-2 header goes, and nothing behind it.
strip_lines-family2 :
    (fuel c : ℕ) (line h : Text)
    → is_line (c ∷ line) ≡ true
    → StartsPlain h
    → is_family2_header_line ((c ∷ line) ++ crlf) ≡ true
    → strip_lines (suc fuel) ((c ∷ line) ++ (crlf ++ h)) ≡ strip_lines fuel h
unfolding strip_lines take drop
strip_lines-family2 fuel c line h l p f =
    let z : suc (length line) + 2 + 0 ≡ suc (length line) + 2 = omega arith in
    rw
      (
        find_line_end-line (c ∷ line) h l,
        take-append (c ∷ line) (crlf ++ h) 2,
        drop-append (c ∷ line) (crlf ++ h) 2,
        folded-plain (length ((c ∷ line) ++ (crlf ++ h))) h p,
        z,
        drop-append (c ∷ line) (crlf ++ h) 2,
        f,
      )
      refl

strip-line :
    (c : ℕ) (line t : Text)
    → is_line (c ∷ line) ≡ true
    → StartsPlain t
    → is_family2_header_line ((c ∷ line) ++ crlf) ≡ true
    → strip_family2_headers ((c ∷ line) ++ (crlf ++ t)) ≡ strip_family2_headers t
unfolding strip_family2_headers
strip-line c line t l p f =
    let h = (split_header_body t).0 in
    rw (split_header_body-line (c ∷ line) t l p) (
      ap (λ r. r ++ (split_header_body t).1)
        (strip_lines-family2 (length (line ++ (crlf ++ h))) c line h l
            (split_header_body-StartsPlain t p) f
          ∙ strip_lines_fuel (length (line ++ (crlf ++ h))) (length h) h
              (omega (arith, length-append line (crlf ++ h))) (omega arith)))

-- The line that `inject_family2_headers` puts in, and what holds of it.
strip-header :
    (name value t : Text)
    → is_line (name ++ value) ≡ true
    → StartsPlain t
    → is_family2_header_line ((name ++ value) ++ crlf) ≡ true
    → strip_family2_headers ((name ++ (value ++ crlf)) ++ t) ≡ strip_family2_headers t
unfolding is_family2_header_line line_starts_with_header_ci all
strip-header [] [] t l p f = ground (arith, f)
strip-header [] (c ∷ value) t l p f = rw (append_assoc value crlf t) (strip-line c value t l p f)
strip-header (c ∷ name) value t l p f =
    rw (sym (append_assoc name value crlf), append_assoc (name ++ value) crlf t)
      (strip-line c (name ++ value) t l p f)

-- When the reason, the time and the ulid are each within one line, and the message begins with a
-- byte that neither ends a line nor continues one, taking out the Family-2 headers that were put
-- in gives what taking them out of the message itself gives.
pub strip-inject_family2_headers :
    (bytes reason now ulid : Text)
    → StartsPlain bytes
    → is_line reason ≡ true
    → is_line now ≡ true
    → is_line ulid ≡ true
    → strip_family2_headers (inject_family2_headers bytes reason now ulid)
      ≡ strip_family2_headers bytes
unfolding inject_family2_headers is_family2_header_line line_starts_with_header_ci all nat_eq
strip-inject_family2_headers bytes reason now ulid p r n u =
    strip-header (text "X-JMAP-Failure: ") reason _ r refl refl
    ∙ (strip-header (text "X-JMAP-Failed-At: ") now _ n refl refl
        ∙ strip-header (text "X-JMAP-Ulid: ") ulid bytes u p refl)
