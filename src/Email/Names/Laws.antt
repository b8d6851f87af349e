-- ===== src/Email/Names/Laws.antt =====
-- src/sync/email.rs: what the functions on file names give back of what was put in.
use jmapsyncd.Base.{
  ℕ, ◌≡◌, ◌≢◌, refl, ◌∙◌, ap, sym, inl, inr, arith, Bool, true, false, ◌||◌, some, ◌∷◌, ◌++◌, Text,
  text, nat_eq, contains, contains-append, Bool-cases, append_assoc,
}
use jmapsyncd.Base.Int.{ℤ, show_ℤ, contains-show_ℤ, is_other}
use jmapsyncd.Base.Strings.{
  flag_mark, split_once, rsplit_once, before_first, after_last, rsplit_once-flag_mark,
  after_last-append, before_first-append, split_once-append,
}
use jmapsyncd.Email.Keywords.{is_standard_flag}
use jmapsyncd.Email.Keywords.Flags.{IsFlagString}
use jmapsyncd.Email.Names.{
  filename_base, current_flags_from_path, rebuild_path_with_flags, extract_uuid, basename_of,
  rel_path,
}

-- A flag string has no character but flags.
pub IsFlagString-not-contains :
    (flags : Text) (c : ℕ)
    → IsFlagString flags
    → is_standard_flag c ≡ false
    → contains flags c ≡ false
IsFlagString-not-contains flags c f h = elim (Bool-cases (contains flags c)) [
  | inl e ↦ cc (f.standard c e)
  | inr e ↦ e
]

rebuild_path_with_flags_lem :
    (path flags : Text)
    → rebuild_path_with_flags path flags ≡ filename_base path ++ (flag_mark ++ flags)
unfolding rebuild_path_with_flags filename_base
rebuild_path_with_flags_lem path flags = ground arith

split_rebuilt :
    (path flags : Text)
    → contains flags b':' ≡ false
    → rsplit_once flag_mark (rebuild_path_with_flags path flags) ≡ some (filename_base path, flags)
split_rebuilt path flags h =
    rw rebuild_path_with_flags_lem (rsplit_once-flag_mark (filename_base path) flags h)

-- The flags that any path is rebuilt with are read back, and its base stays, when the flags
-- contain no `:`.
pub rebuild_path_with_flags_read :
    (path flags : Text)
    → contains flags b':' ≡ false
    → (current_flags_from_path (rebuild_path_with_flags path flags) ≡ flags)
      × (filename_base (rebuild_path_with_flags path flags) ≡ filename_base path)
unfolding current_flags_from_path filename_base
rebuild_path_with_flags_read path flags h = (
  rw (split_rebuilt path flags h, current_flags_from_path),
  rw (split_rebuilt path flags h, filename_base),
)

-- Rebuilding a path a second time replaces the flags of the first time, when those contain no `:`.
pub rebuild_path_with_flags_twice :
    (path flags flags' : Text)
    → contains flags b':' ≡ false
    → rebuild_path_with_flags (rebuild_path_with_flags path flags) flags'
      ≡ rebuild_path_with_flags path flags'
rebuild_path_with_flags_twice path flags flags' h =
    rebuild_path_with_flags_lem (rebuild_path_with_flags path flags) flags'
    ∙ ap (λ (b : Text). b ++ (flag_mark ++ flags')) (rebuild_path_with_flags_read path flags h).1
    ∙ sym (rebuild_path_with_flags_lem path flags')

-- The name part of a path that the program writes.
abbrev pub IsNamePart : Text → Type 0
IsNamePart s = (contains s b'/' ≡ false) × (contains s b':' ≡ false)

contains-basename_of :
    (ts : ℤ) (uuid : Text) (c : ℕ)
    → is_other c ≡ true
    → contains uuid c ≡ false
    → c ≢ b'.'
    → contains (basename_of ts uuid) c ≡ false
unfolding basename_of contains
contains-basename_of ts uuid c o h k =
    ground (arith, contains-append (show_ℤ ts) (b'.' ∷ uuid) c, contains-show_ℤ ts c o)

-- The file name of a path that the program writes.
name_of : ℤ → Text → Text → Text
name_of ts uuid flags = basename_of ts uuid ++ (flag_mark ++ flags)

contains-name_of :
    (ts : ℤ) (uuid flags : Text)
    → contains uuid b'/' ≡ false
    → contains flags b'/' ≡ false
    → contains (name_of ts uuid flags) b'/' ≡ false
unfolding name_of
contains-name_of ts uuid flags h k =
    contains-append (basename_of ts uuid) (flag_mark ++ flags) b'/'
    ∙ ap (λ (b : Bool). b || contains (flag_mark ++ flags) b'/')
        (contains-basename_of ts uuid b'/' refl h (omega arith))
    ∙ contains-append flag_mark flags b'/'
    ∙ ap (λ (b : Bool). contains flag_mark b'/' || b) k
    ∙ unfold contains nat_eq in refl

rel_path_lem :
    (mailbox : Text) (ts : ℤ) (uuid flags : Text)
    → rel_path mailbox ts uuid flags ≡ (mailbox ++ text "/cur") ++ (b'/' ∷ name_of ts uuid flags)
unfolding rel_path name_of
rel_path_lem mailbox ts uuid flags = sym (append_assoc mailbox (text "/cur") _)

rel_path_split :
    (mailbox : Text) (ts : ℤ) (uuid flags : Text)
    → rel_path mailbox ts uuid flags
      ≡ (mailbox ++ (text "/cur" ++ (b'/' ∷ basename_of ts uuid))) ++ (flag_mark ++ flags)
unfolding rel_path
rel_path_split mailbox ts uuid flags =
    sym (append_assoc mailbox (text "/cur" ++ (b'/' ∷ basename_of ts uuid)) (flag_mark ++ flags))

extract_uuid_steps :
    (path filename base ts uuid : Text)
    → after_last b'/' path ≡ filename
    → before_first flag_mark filename ≡ base
    → split_once b'.' base ≡ some (ts, uuid)
    → extract_uuid path ≡ some uuid
unfolding extract_uuid
extract_uuid_steps path filename base ts uuid p q r = rw (p, extract_uuid) (rw (q) (rw (r)))

after_last-rel_path :
    (mailbox : Text) (ts : ℤ) (uuid flags : Text)
    → contains uuid b'/' ≡ false
    → contains flags b'/' ≡ false
    → after_last b'/' (rel_path mailbox ts uuid flags) ≡ name_of ts uuid flags
after_last-rel_path mailbox ts uuid flags h k = rw (rel_path_lem mailbox ts uuid flags) (
    after_last-append b'/' (mailbox ++ text "/cur") (name_of ts uuid flags)
      (contains-name_of ts uuid flags h k))

before_first-name_of :
    (ts : ℤ) (uuid flags : Text)
    → contains uuid b':' ≡ false
    → before_first flag_mark (name_of ts uuid flags) ≡ basename_of ts uuid
unfolding name_of
before_first-name_of ts uuid flags h =
    before_first-append (basename_of ts uuid) flags
      (contains-basename_of ts uuid b':' refl h (omega arith))

split_once-basename_of :
    (ts : ℤ) (uuid : Text) → split_once b'.' (basename_of ts uuid) ≡ some (show_ℤ ts, uuid)
unfolding basename_of
split_once-basename_of ts uuid =
    split_once-append b'.' (show_ℤ ts) uuid (contains-show_ℤ ts b'.' refl)

extract_uuid-rel_path :
    (mailbox : Text) (ts : ℤ) (uuid flags : Text)
    → IsNamePart uuid
    → contains flags b'/' ≡ false
    → extract_uuid (rel_path mailbox ts uuid flags) ≡ some uuid
extract_uuid-rel_path mailbox ts uuid flags u f =
    extract_uuid_steps (rel_path mailbox ts uuid flags) (name_of ts uuid flags)
      (basename_of ts uuid) (show_ℤ ts) uuid (after_last-rel_path mailbox ts uuid flags u.0 f)
      (before_first-name_of ts uuid flags u.1) (split_once-basename_of ts uuid)

split_rel_path :
    (mailbox : Text) (ts : ℤ) (uuid flags : Text)
    → IsFlagString flags
    → rsplit_once flag_mark (rel_path mailbox ts uuid flags)
      ≡ some (mailbox ++ (text "/cur" ++ (b'/' ∷ basename_of ts uuid)), flags)
split_rel_path mailbox ts uuid flags f = rw (rel_path_split mailbox ts uuid flags) (
    rsplit_once-flag_mark _ flags
      (IsFlagString-not-contains flags b':' f (unfold is_standard_flag nat_eq in refl)))

split_name_of :
    (ts : ℤ) (uuid flags : Text)
    → IsFlagString flags
    → rsplit_once flag_mark (name_of ts uuid flags) ≡ some (basename_of ts uuid, flags)
unfolding name_of
split_name_of ts uuid flags f =
    rsplit_once-flag_mark (basename_of ts uuid) flags
      (IsFlagString-not-contains flags b':' f (unfold is_standard_flag nat_eq in refl))

-- From the path of a message file, whose uuid has no `/` and no `:` and whose flags are standard,
-- ascending and without repetition, the program reads back the uuid, the flags and the base of
-- the file name, which the write-back looks for, whatever the mailbox is called.
pub rel_path_read :
    (mailbox : Text) (ts : ℤ) (uuid flags : Text)
    → IsNamePart uuid
    → IsFlagString flags
    → (extract_uuid (rel_path mailbox ts uuid flags) ≡ some uuid)
      × (current_flags_from_path (rel_path mailbox ts uuid flags) ≡ flags)
      × (filename_base (after_last b'/' (rel_path mailbox ts uuid flags)) ≡ basename_of ts uuid)
unfolding current_flags_from_path filename_base
rel_path_read mailbox ts uuid flags u f =
    let e = split_rel_path mailbox ts uuid flags f in
    let no_slash =
      IsFlagString-not-contains flags b'/' f (unfold is_standard_flag nat_eq in refl) in
    (
      extract_uuid-rel_path mailbox ts uuid flags u no_slash,
      rw (e, current_flags_from_path),
      rw (after_last-rel_path mailbox ts uuid flags u.0 no_slash)
          (rw (split_name_of ts uuid flags f, filename_base)),
    )

-- Rebuilding the path of a message file with new flags gives the path that the message would have
-- had with those flags: its mailbox, time and uuid stay. The old flags are standard, ascending and
-- without repetition.
pub rebuild-rel_path :
    (mailbox : Text) (ts : ℤ) (uuid flags flags' : Text)
    → IsFlagString flags
    → rebuild_path_with_flags (rel_path mailbox ts uuid flags) flags'
      ≡ rel_path mailbox ts uuid flags'
unfolding rebuild_path_with_flags
rebuild-rel_path mailbox ts uuid flags flags' f =
    rw (split_rel_path mailbox ts uuid flags f, rebuild_path_with_flags)
      (sym (rel_path_split mailbox ts uuid flags'))
