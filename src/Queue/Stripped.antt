-- ===== src/Queue/Stripped.antt =====
-- src/bin/jmapqueue.rs: a header line in front of a message is taken out.
use jmapsyncd.Base.{
  ℕ, zero, suc, ◌≤◌, ◌≡◌, refl, ap, ◌∙◌, inl, inr, arith, Bool, true, false, [], ◌∷◌, ◌++◌, Text,
  nat_eq, length, length-append, Option-cases, if◌then◌else◌,
}
use jmapsyncd.Base.Strings.{drop, take, length-drop}
use jmapsyncd.Daemon.Headers.{crlf, find_subseq, find_line_end, starts_with_folded_continuation}
use jmapsyncd.Daemon.Headers.RoundTrip.{find_line_end-line, find_line_end-pos}
use jmapsyncd.Daemon.Headers.Split.{
  StartsPlain, is_plain, is_line, find-crlf, find-lf, take-line, drop-line, take-append,
  drop-append,
}
use jmapsyncd.Queue.{
  split_header_body, line_starts_with_header, strip_lines, strip_header_case_insensitive,
}

split_header_body-line :
    (line t : Text)
    → is_line line ≡ true
    → StartsPlain t
    → split_header_body (line ++ (crlf ++ t))
      ≡ (line ++ (crlf ++ (split_header_body t).0), (split_header_body t).1)
unfolding split_header_body
split_header_body-line line t h p = elim (Option-cases (find_subseq (crlf ++ crlf) t)) [
  | inr (k, e) ↦
      rw (split_header_body, find-crlf line t h p, e, take-line line t k, drop-line line t k) refl
  | inl e ↦ elim (Option-cases (find_subseq (10 ∷ 10 ∷ []) t)) [
    | inr (k, g) ↦
        rw
          (
            split_header_body,
            find-crlf line t h p,
            e,
            find-lf line t h p,
            g,
            take-line line t k,
            drop-line line t k,
          )
          refl
    | inl g ↦ rw (split_header_body, find-crlf line t h p, e, find-lf line t h p, g) refl
  ]
]

-- A header, which may be empty, that begins with a byte that neither ends nor continues a line.
abbrev Plain : Text → Type 0
Plain [] = Unit
Plain (b ∷ bs) = is_plain b ≡ true

take-Plain : (k : ℕ) (t : Text) → StartsPlain t → Plain (take k t)
unfolding take
take-Plain zero t p = tt
take-Plain (suc k) [] p = elim p [ ]
take-Plain (suc k) (b ∷ t) p = p

StartsPlain-Plain : (t : Text) → StartsPlain t → Plain t
StartsPlain-Plain [] p = tt
StartsPlain-Plain (b ∷ t) p = p

split_header_body-Plain : (t : Text) → StartsPlain t → Plain (split_header_body t).0
unfolding split_header_body
split_header_body-Plain t p = elim (Option-cases (find_subseq (crlf ++ crlf) t)) [
  | inr (k, e) ↦ rw (split_header_body, e) (take-Plain k t p)
  | inl e ↦ elim (Option-cases (find_subseq (10 ∷ 10 ∷ []) t)) [
    | inr (k, g) ↦ rw (split_header_body, e, g) (take-Plain k t p)
    | inl g ↦ rw (split_header_body, e, g) (StartsPlain-Plain t p)
  ]
]

folded-take :
    (b : ℕ) (bs : Text) (n : ℕ)
    → 1 ≤ n
    → is_plain b ≡ true
    → starts_with_folded_continuation (take n (b ∷ bs)) ≡ false
unfolding starts_with_folded_continuation take
folded-take b bs zero l p = ground (arith, l)
folded-take b bs (suc n) l p = ground (arith, p)

-- More fuel than bytes changes nothing.
strip_lines_fuel :
    (m n : ℕ) (name : Text) (skip : Bool) (h : Text)
    → length h ≤ m
    → length h ≤ n
    → strip_lines m name skip h ≡ strip_lines n name skip h
unfolding strip_lines
strip_lines_fuel zero zero name skip h a b = refl
strip_lines_fuel zero (suc n) name skip [] a b = refl
strip_lines_fuel zero (suc n) name skip (x ∷ h) a b = ground (arith, a)
strip_lines_fuel (suc m) zero name skip [] a b = refl
strip_lines_fuel (suc m) zero name skip (x ∷ h) a b = ground (arith, b)
strip_lines_fuel (suc m) (suc n) name skip [] a b = refl
strip_lines_fuel (suc m) (suc n) name skip (x ∷ h) a b =
    let line_end = find_line_end (x ∷ h) in
    let line = take line_end (x ∷ h) in
    let skip' =
      if starts_with_folded_continuation line then skip else line_starts_with_header line name in
    ap (λ rest. if skip' then rest else line ++ rest)
      (strip_lines_fuel m n name skip' (drop line_end (x ∷ h))
        (omega (arith, a, find_line_end-pos x h, length-drop line_end (x ∷ h)))
        (omega (arith, b, find_line_end-pos x h, length-drop line_end (x ∷ h))))

-- At a line that is not folded, it does not matter what was before.
strip_lines_skip :
    (fuel : ℕ) (name : Text) (h : Text)
    → Plain h
    → strip_lines fuel name true h ≡ strip_lines fuel name false h
unfolding strip_lines
strip_lines_skip zero name h p = refl
strip_lines_skip (suc fuel) name [] p = refl
strip_lines_skip (suc fuel) name (b ∷ h) p =
    rw (folded-take b h (find_line_end (b ∷ h)) (find_line_end-pos b h) p) refl

strip_lines-header :
    (fuel c : ℕ) (line h name : Text)
    → is_line (c ∷ line) ≡ true
    → is_plain c ≡ true
    → line_starts_with_header ((c ∷ line) ++ crlf) name ≡ true
    → strip_lines (suc fuel) name false ((c ∷ line) ++ (crlf ++ h)) ≡ strip_lines fuel name true h
unfolding strip_lines take drop starts_with_folded_continuation
strip_lines-header fuel c line h name l p f =
    let not_folded : starts_with_folded_continuation (c ∷ (line ++ crlf)) ≡ false =
      ground (arith, p) in
    rw
      (
        find_line_end-line (c ∷ line) h l,
        take-append (c ∷ line) (crlf ++ h) 2,
        drop-append (c ∷ line) (crlf ++ h) 2,
        not_folded,
        f,
      )
      refl

-- A line of one header in front of a message that begins with a byte that neither ends nor
-- continues a line is taken out, whatever its value; what is left is what stripping the message
-- alone leaves.
pub strip_header_case_insensitive-line :
    (c : ℕ) (line t name : Text)
    → is_line (c ∷ line) ≡ true
    → is_plain c ≡ true
    → StartsPlain t
    → line_starts_with_header ((c ∷ line) ++ crlf) name ≡ true
    → strip_header_case_insensitive ((c ∷ line) ++ (crlf ++ t)) name
      ≡ strip_header_case_insensitive t name
unfolding strip_header_case_insensitive
strip_header_case_insensitive-line c line t name l q p f =
    let h = (split_header_body t).0 in
    rw (split_header_body-line (c ∷ line) t l p) (
      ap (λ r. r ++ (split_header_body t).1)
        (strip_lines-header (length (line ++ (crlf ++ h))) c line h name l q f
          ∙ (strip_lines_skip (length (line ++ (crlf ++ h))) name h (split_header_body-Plain t p)
              ∙ strip_lines_fuel (length (line ++ (crlf ++ h))) (length h) name false h
                  (omega (arith, length-append line (crlf ++ h))) (omega arith))))
