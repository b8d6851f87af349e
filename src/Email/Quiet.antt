-- ===== src/Email/Quiet.antt =====
-- src/sync/email.rs: what one pass has settled the next one leaves alone.
use jmapsyncd.Base.{
  ◌≡◌, refl, arith, true, false, Option, none, some, List, [], ◌∷◌, Text, text, text_eq, nat_eq,
  contains, keep, ==_refl, Bool, ℕ,
}
use jmapsyncd.Base.Int.{ℤ}
use jmapsyncd.Db.Models.{EmailRow}
use jmapsyncd.Email.Keywords.{
  IsLawful, unwrap_or, is_standard_flag, serialize_keywords, keywords_to_flag_string,
}
use jmapsyncd.Email.Keywords.Flags.{keywords_to_flag_string-IsFlagString}
use jmapsyncd.Email.Keywords.Json.{merge-serialize, merge_keywords_json_twice}
use jmapsyncd.Email.Names.Laws.{IsFlagString-not-contains}
use jmapsyncd.Email.Writeback.{update_keywords, resolve_current_file, detect_present, detect}
use jmapsyncd.World.{Outside}

keep-all : (p : ℕ → Bool) (s : Text) → ((c : ℕ) → contains s c ≡ true → p c ≡ true) → keep p s ≡ s
unfolding keep contains
keep-all p [] h = refl
keep-all p (x ∷ s) h =
    ground (arith, h x (ground (arith, ==_refl x)), keep-all p s (λ c e. h c (ground (arith, e))))

module _ (O : Outside) (lawful : IsLawful O.json) where
  -- A message whose file name holds the flags of its keywords, and whose row holds the keywords as
  -- a pull writes them, gives no local change: when the file is found, nothing is pushed.
  -- `serde_json` is assumed to parse back what it prints.
  pub detect-pulled :
      (disk : O.State) (jmap_id rel : Text) (row : EmailRow) (keywords : List Text)
      → row.keywords ≡ some (serialize_keywords O.json keywords)
      → resolve_current_file O disk row.file_path ≡ some (rel, keywords_to_flag_string keywords)
      → detect O disk (jmap_id, row) ≡ none
  unfolding detect detect_present
  detect-pulled disk jmap_id rel row keywords k r =
      let flags = keywords_to_flag_string keywords in
      let f = keywords_to_flag_string-IsFlagString keywords in
      let kept : keep is_standard_flag flags ≡ flags = keep-all is_standard_flag flags f.standard in
      let shut : contains flags b'T' ≡ false =
        IsFlagString-not-contains flags b'T' f (unfold is_standard_flag nat_eq in refl) in
      ground (arith, r, k, kept, shut, merge-serialize O.json lawful keywords)

  -- After a local change of flags was pushed, the row that was written for it gives no local
  -- change while the file keeps its name. `serde_json` is assumed to parse back what it prints.
  pub detect-pushed :
      (jmap_id rel flags new_flags json path : Text) (row : EmailRow) (now : Option ℤ)
      → detect_present O jmap_id row rel flags ≡ some (update_keywords jmap_id new_flags json path)
      → detect_present O jmap_id
          (record row { keywords = some json; file_path = path; last_sync = now })
          path
          flags
        ≡ none
  unfolding detect_present
  detect-pushed jmap_id rel flags new_flags json path row now h = ground (
    arith,
    merge_keywords_json_twice O.json lawful (unwrap_or (text "{}") row.keywords)
        (keep is_standard_flag flags) (keep is_standard_flag flags),
  )
