-- ===== src/Tests/Names.antt =====
-- The file name theorems on `INBOX/cur/1700000000.u-1:2,FS`, and the choice of a mailbox.
use jmapsyncd.Base.{
  ◌≡◌, refl, none, some, List, [], ◌∷◌, ◌++◌, Text, text, text_eq, nat_eq, contains, All, ◌⊎◌,
}
use jmapsyncd.Base.Dict.{Dict}
use jmapsyncd.Base.Int.{pos, show_ℤ}
use jmapsyncd.Base.Strings.{rsplit_once, after_last}
use jmapsyncd.Db.Models.{MailboxRow}
use jmapsyncd.Email.Keywords.Flags.{keywords_to_flag_string-IsFlagString}
use jmapsyncd.Email.Keywords.{keywords_to_flag_string}
use jmapsyncd.Email.Names.Laws.{rel_path_read}
use jmapsyncd.Email.Names.{
  filename_base, filename_flags, current_flags_from_path, extract_uuid, basename_of, rel_path,
}
use jmapsyncd.Email.Primary.Least.{Precedes, Ties, pick_primary_mailbox-Precedes}
use jmapsyncd.Email.Primary.{candidates, pick_primary_mailbox}

abbrev fs : Text
fs = keywords_to_flag_string (text "$seen" ∷ text "$flagged" ∷ [])

abbrev path : Text
path = rel_path (text "INBOX") (pos 1700000000) (text "u-1") fs

path_text : path ≡ text "INBOX/cur/1700000000.u-1:2,FS"
unfolding rel_path basename_of show_ℤ keywords_to_flag_string text_eq nat_eq
path_text = refl

path_flags : filename_flags (text "a.b:2,c:2,S") ≡ text "S"
unfolding filename_flags rsplit_once nat_eq
path_flags = refl

rel_path_read_example :
    (extract_uuid path ≡ some (text "u-1"))
    × (current_flags_from_path path ≡ fs)
    × (filename_base (after_last b'/' path) ≡ basename_of (pos 1700000000) (text "u-1"))
unfolding contains nat_eq
rel_path_read_example =
    rel_path_read (text "INBOX") (pos 1700000000) (text "u-1") fs (refl, refl)
      (keywords_to_flag_string-IsFlagString (text "$seen" ∷ text "$flagged" ∷ []))

abbrev pub box : Text → Text → MailboxRow
box id role = record {
  id = id;
  jmap_id = some id;
  name = role;
  parent_id = none;
  role = some role;
  sort_order = some (pos 1);
  path = role;
  jmap_state = none;
}

abbrev boxes : Dict Text MailboxRow
boxes = (text "A", box (text "1") (text "archive")) ∷ (text "I", box (text "2") (text "inbox")) ∷ []

abbrev both : List Text
both = text "A" ∷ text "I" ∷ []

picked : pick_primary_mailbox both boxes ≡ some (box (text "2") (text "inbox"))
unfolding pick_primary_mailbox text_eq
picked = refl

pick_primary_mailbox-Precedes_example :
    (before : List MailboxRow) × (after : List MailboxRow) × (candidates both boxes
      ≡ before ++ (box (text "2") (text "inbox") ∷ after))
    × All (λ c. Precedes (box (text "2") (text "inbox")) c) before
    × All
        (λ c. Precedes (box (text "2") (text "inbox")) c ⊎ Ties (box (text "2") (text "inbox")) c)
        after
pick_primary_mailbox-Precedes_example =
    pick_primary_mailbox-Precedes both boxes (box (text "2") (text "inbox")) picked
