-- ===== src/Email/Names.antt =====
-- src/sync/email.rs: Maildir file names, `{ts}.{uuid}:2,{flags}` in `{mailbox}/cur/`, and the
-- functions that take them apart. Paths are relative to the mail root, with `/` between parts.
pub mod Laws
use jmapsyncd.Base.{ℕ, Option, none, some, [], ◌∷◌, ◌++◌, Text, text}
use jmapsyncd.Base.Int.{ℤ, show_ℤ}
use jmapsyncd.Base.Strings.{flag_mark, split_once, rsplit_once, before_first, after_last}

unfoldable pub filename_base : Text → Text
filename_base name = elim (rsplit_once flag_mark name) [ none ↦ name | some (b, _) ↦ b ]

unfoldable pub filename_flags : Text → Text
filename_flags name = elim (rsplit_once flag_mark name) [ none ↦ [] | some (_, f) ↦ f ]

unfoldable pub current_flags_from_path : Text → Text
current_flags_from_path path = elim (rsplit_once flag_mark path) [
  | none ↦ []
  | some (_, tail) ↦ tail
]

unfoldable pub rebuild_path_with_flags : Text → Text → Text
rebuild_path_with_flags path flags = elim (rsplit_once flag_mark path) [
  | some (base, _) ↦ base ++ (flag_mark ++ flags)
  | none ↦ path ++ (flag_mark ++ flags)
]

unfoldable pub extract_uuid : Text → Option Text
extract_uuid path =
    let filename = after_last b'/' path in
    let base = before_first flag_mark filename in
    elim (split_once b'.' base) [ none ↦ none | some (_, uuid) ↦ some uuid ]

-- `format!("{ts}.{uuid}")`
unfoldable pub basename_of : ℤ → Text → Text
basename_of ts uuid = show_ℤ ts ++ (b'.' ∷ uuid)

-- `format!("{mailbox}/cur/{basename}:2,{flags}")`
unfoldable pub rel_path : Text → ℤ → Text → Text → Text
rel_path mailbox ts uuid flags =
    mailbox ++ (text "/cur" ++ (b'/' ∷ (basename_of ts uuid ++ (flag_mark ++ flags))))
