-- ===== src/Daemon/Headers.antt =====
-- src/daemon/submit.rs: the Family-2 headers of a failed message, taken out and put in. The time
-- of the failure and the sanitized reason are arguments of `inject_family2_headers`.
pub mod Split
pub mod RoundTrip
use jmapsyncd.Base.{
  ℕ, zero, suc, ◌+◌, Bool, true, false, ◌||◌, ◌&&◌, Option, none, some, [], ◌∷◌, ◌++◌, Text, text,
  ◌==◌, nat_eq, starts_with, length, if◌then◌else◌, leb,
}
use jmapsyncd.Base.Strings.{drop, take}

unfoldable pub find_subseq : Text → Text → Option ℕ
find_subseq needle [] = none
find_subseq needle (b ∷ bs) = elim (starts_with (b ∷ bs) needle) [
  | true ↦ some 0
  | false ↦ elim (find_subseq needle bs) [ none ↦ none | some n ↦ some (suc n) ]
]

abbrev pub crlf : Text
crlf = 13 ∷ 10 ∷ []

unfoldable pub split_header_body : Text → Text × Text
split_header_body bytes = elim (find_subseq (crlf ++ crlf) bytes) [
  | some pos ↦ (take (pos + 4) bytes, drop (pos + 4) bytes)
  | none ↦ elim (find_subseq (10 ∷ 10 ∷ []) bytes) [
    | some pos ↦ (take (pos + 2) bytes, drop (pos + 2) bytes)
    | none ↦ (bytes, [])
  ]
]

unfoldable pub find_line_end : Text → ℕ
find_line_end [] = 0
find_line_end (b ∷ bs) = let rest = find_line_end bs in if b == 10 then 1 else suc rest

unfoldable pub starts_with_folded_continuation : Text → Bool
starts_with_folded_continuation [] = false
starts_with_folded_continuation (b ∷ _) = b == b' ' || b == 9

-- `u8::to_ascii_lowercase`
abbrev pub ascii_lowercase : ℕ → ℕ
ascii_lowercase c = if leb 65 c && leb c 90 then c + 32 else c

unfoldable pub line_starts_with_header_ci : Text → Text → Bool
line_starts_with_header_ci line [] = true
line_starts_with_header_ci [] (n ∷ ns) = false
line_starts_with_header_ci (b ∷ bs) (n ∷ ns) =
    ascii_lowercase b == ascii_lowercase n && line_starts_with_header_ci bs ns

unfoldable pub is_family2_header_line : Text → Bool
is_family2_header_line line =
    line_starts_with_header_ci line (text "X-JMAP-Failure:")
    || (line_starts_with_header_ci line (text "X-JMAP-Failed-At:")
        || line_starts_with_header_ci line (text "X-JMAP-Ulid:"))

-- The folded lines that follow, by their length; on fuel, of which each line takes one.
unfoldable pub folded : ℕ → Text → ℕ
folded zero rest = 0
folded (suc fuel) rest = elim (starts_with_folded_continuation rest) [
  | true ↦ find_line_end rest + folded fuel (drop (find_line_end rest) rest)
  | false ↦ 0
]

-- The loop over the header lines; on fuel, of which each header takes one.
unfoldable pub strip_lines : ℕ → Text → Text
strip_lines zero header = []
strip_lines (suc fuel) [] = []
strip_lines (suc fuel) (b ∷ bs) =
    let header = b ∷ bs in
    let line_end = find_line_end header in
    let skip = line_end + folded (length header) (drop line_end header) in
    let rest = strip_lines fuel (drop skip header) in
    if is_family2_header_line (take line_end header) then rest else take skip header ++ rest

-- A header has at most as many lines as bytes.
unfoldable pub strip_family2_headers : Text → Text
strip_family2_headers bytes =
    let (header, body) = split_header_body bytes in strip_lines (length header) header ++ body

unfoldable pub inject_family2_headers : Text → Text → Text → Text → Text
inject_family2_headers bytes sanitized_reason now ulid =
    (text "X-JMAP-Failure: " ++ (sanitized_reason ++ crlf))
    ++ ((text "X-JMAP-Failed-At: " ++ (now ++ crlf))
        ++ ((text "X-JMAP-Ulid: " ++ (ulid ++ crlf)) ++ bytes))
