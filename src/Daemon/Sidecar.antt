-- ===== src/Daemon/Sidecar.antt =====
-- src/daemon/submit.rs: the sidecar of a message, and the files of the Outbox and of Failed. The
-- file system, `serde_json` and `chrono` are parameters; paths are joined by `/`.
pub mod RoundTrip
pub mod Working
use jmapsyncd.Base.{
  ℕ, suc, ◌+◌, Bool, true, false, not, ◌&&◌, Option, none, some, List, [], ◌∷◌, ◌++◌, Text, text,
  ◌==◌, text_eq, nat_eq, starts_with, keep, map, if◌then◌else◌,
}
use jmapsyncd.Base.Strings.{after_last, rsplit_once}
use jmapsyncd.Daemon.Headers.{strip_family2_headers, inject_family2_headers}
use jmapsyncd.Daemon.Submission.{Envelope, strip_flags}
use jmapsyncd.Email.Files.{parent_of}

pub record RetryState : Type 0 where
  pub attempts : ℕ
  pub next_at : Option Text
  pub last_error : Option Text

pub record SidecarState : Type 0 where
  pub envelope : Envelope
  pub send_at : Option Text
  pub submitted_at : Text
  pub account : Text
  pub retry : Option RetryState
  pub in_flight : Option Text

-- `SidecarState::default()`
abbrev pub default_sidecar : SidecarState
default_sidecar = record {
  envelope = record { from = []; to = [] };
  send_at = none;
  submitted_at = [];
  account = [];
  retry = none;
  in_flight = none;
}

-- A file operation says whether it succeeded and what it leaves. `write` creates, writes and syncs;
-- `read_dir` has the names; `timestamp` is that of an RFC 3339 text, at least 0.
pub record Host : Type 1 where
  pub State : Type 0
  pub is_file : State → Text → Bool
  pub read : State → Text → Option Text
  pub read_dir : State → Text → Option (List Text)
  pub create_dir_all : State → Text → Bool × State
  pub write : State → Text → Text → Bool × State
  pub rename : State → Text → Text → Bool × State
  pub remove_file : State → Text → Bool × State
  pub to_vec_pretty : SidecarState → Option Text
  pub from_slice : Text → Option SidecarState
  pub timestamp : Text → Option ℕ

abbrev pub join : Text → Text → Text
join dir name = dir ++ (b'/' ∷ name)

-- The file of a sidecar, and the one that it is first written to.
abbrev pub sidecar_path : Text → Text → Text
sidecar_path dir basename = join dir (basename ++ text ".json")

abbrev pub sidecar_tmp : Text → Text → Text
sidecar_tmp dir basename = join dir (b'.' ∷ (basename ++ text ".json.tmp"))

unfoldable pub tmp_neighbour : Text → Text
tmp_neighbour path = join (parent_of path) (b'.' ∷ (after_last b'/' path ++ text ".jmapsyncd-tmp"))

module _ (H : Host) where
  abbrev pub FileOp : Type 0
  FileOp = H.State → Bool × H.State

  abbrev pub if_ok : Bool × H.State → FileOp → Bool × H.State
  if_ok (false, d) g = (false, d)
  if_ok (true, d) g = g d

  -- `f()?; g()`
  unfoldable pub and_then : FileOp → FileOp → FileOp
  and_then f g d = if_ok (f d) g

  abbrev parsed : Option SidecarState → SidecarState
  parsed none = default_sidecar
  parsed (some s) = s

  unfoldable pub load : Text → Text → H.State → SidecarState
  load dir basename d = elim (H.read d (sidecar_path dir basename)) [
    | none ↦ default_sidecar
    | some bytes ↦ parsed (H.from_slice bytes)
  ]

  unfoldable pub save : SidecarState → Text → Text → FileOp
  save s dir basename d = elim (H.to_vec_pretty s) [
    | none ↦ (false, d)
    | some bytes ↦
        and_then (λ e. H.write e (sidecar_tmp dir basename) bytes)
          (λ e. H.rename e (sidecar_tmp dir basename) (sidecar_path dir basename)) d
  ]

  unfoldable pub reset_sidecar_for_retry : Text → Text → H.State → H.State
  reset_sidecar_for_retry dir basename d =
      (save (record (load dir basename d) { retry = none; in_flight = none }) dir basename d).1

  unfoldable pub next_at_epoch_secs : RetryState → Option ℕ
  next_at_epoch_secs r = elim r.next_at [ none ↦ none | some s ↦ H.timestamp s ]

  unfoldable pub strip_family2_headers_in_place : Text → FileOp
  strip_family2_headers_in_place path d = elim (H.read d path) [
    | none ↦ (false, d)
    | some bytes ↦
        let stripped = strip_family2_headers bytes in
        if stripped == bytes
        then (true, d)
        else and_then (λ e. H.write e (tmp_neighbour path) stripped)
            (λ e. H.rename e (tmp_neighbour path) path) d
  ]

  -- The time of the failure and the sanitized reason are those of `inject_family2_headers`.
  unfoldable pub move_to_failed_atomic : Text → Text → Text → Text → Text → Text → FileOp
  move_to_failed_atomic src failed_dir basename sanitized_reason now ulid d = elim (H.read d src) [
    | none ↦ (false, d)
    | some bytes ↦
        let tmp_path = join (join failed_dir (text "tmp")) basename in
        let new_path = join (join failed_dir (text "new")) basename in
        and_then (λ e. H.create_dir_all e (join failed_dir (text "tmp")))
          (and_then (λ e. H.create_dir_all e (join failed_dir (text "new")))
            (and_then
              (λ e. H.write e tmp_path (inject_family2_headers bytes sanitized_reason now ulid))
              (and_then (λ e. H.rename e tmp_path new_path)
                (λ e. (true, if src == new_path then e else (H.remove_file e src).1)))))
          d
  ]

  -- The first file of a directory listing that is the message with flags.
  unfoldable pub find_flagged : Text → List Text → Option Text
  find_flagged prefix [] = none
  find_flagged prefix (name ∷ names) =
      let rest = find_flagged prefix names in if starts_with name prefix then some name else rest

  abbrev or_nothing : Option (List Text) → List Text
  or_nothing none = []
  or_nothing (some l) = l

  -- The file of a message in one directory.
  unfoldable pub locate_in : H.State → Text → Text → Option Text
  locate_in d dir basename =
      if H.is_file d (join dir basename)
      then some (join dir basename)
      else elim (find_flagged (basename ++ text ":2,") (or_nothing (H.read_dir d dir))) [
        | none ↦ none
        | some name ↦ some (join dir name)
      ]

  abbrev with_bytes : H.State → Text → Option (Text × Text)
  with_bytes d path = elim (H.read d path) [ none ↦ none | some bytes ↦ some (path, bytes) ]

  -- A file that is found but cannot be read ends the search.
  unfoldable pub locate_and_read_outbox_message : H.State → Text → Text → Option (Text × Text)
  locate_and_read_outbox_message d outbox basename =
      elim (locate_in d (join outbox (text "new")) basename) [
        | some path ↦ with_bytes d path
        | none ↦ elim (locate_in d (join outbox (text "cur")) basename) [
          | some path ↦ with_bytes d path
          | none ↦ none
        ]
      ]

  -- The visible files of one directory.
  unfoldable pub scan_dir : H.State → Text → List Text
  scan_dir d dir =
      keep (λ path. H.is_file d path)
        (map (join dir)
          (keep (λ name. not (starts_with name (text "."))) (or_nothing (H.read_dir d dir))))

  unfoldable pub scan_maildir_files : H.State → Text → List Text
  scan_maildir_files d root =
      scan_dir d (join root (text "new")) ++ scan_dir d (join root (text "cur"))

  unfoldable pub scan_basenames : H.State → Text → List Text
  scan_basenames d root =
      map (λ path. strip_flags (after_last b'/' path)) (scan_maildir_files d root)
