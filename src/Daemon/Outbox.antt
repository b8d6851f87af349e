-- ===== src/Daemon/Outbox.antt =====
-- src/daemon/submit.rs: the events of the Outbox and of Failed. An `Instant` is a number of
-- milliseconds, and `now` the one that the event is handled at; a `HashSet` is a list without
-- order.
pub mod Queue
pub mod DragBack
pub mod Expired
use jmapsyncd.Base.{
  ℕ, ◌-◌, Bool, true, false, not, ◌&&◌, Option, none, some, List, [], ◌∷◌, ◌++◌, Text, text, ◌==◌,
  text_eq, nat_eq, contains, keep, starts_with, filter_map, length, if◌then◌else◌, ltb,
}
use jmapsyncd.Base.Dict
use jmapsyncd.Base.Dict.{Dict}
use jmapsyncd.Base.Strings.{drop, before_first}
use jmapsyncd.Daemon.RetrySchedule.{RetrySchedule, schedule}
use jmapsyncd.Daemon.RetrySchedule
use jmapsyncd.Daemon.Sidecar.{Host, reset_sidecar_for_retry, strip_family2_headers_in_place}
use jmapsyncd.Daemon.Submission.{strip_flags}

pub data OutboxSide : Type 0 where
  outbox failed : OutboxSide

pub data RawEventKind : Type 0 where
  create_or_rename_to remove rename_from : RawEventKind

-- `notify::EventKind`, as far as it is read.
pub data RenameMode : Type 0 where
  from to both any_mode : RenameMode

pub data EventKind : Type 0 where
  created removed : EventKind
  renamed : RenameMode → EventKind
  other_kind : EventKind

unfoldable pub classify_event : EventKind → Option RawEventKind
classify_event created = some create_or_rename_to
classify_event removed = some remove
classify_event (renamed from) = some rename_from
classify_event (renamed to) = some create_or_rename_to
classify_event (renamed both) = some create_or_rename_to
classify_event (renamed any_mode) = some create_or_rename_to
classify_event other_kind = none

-- `path.strip_prefix(base)`, by whole components.
unfoldable pub strip_prefix : Text → Text → Option Text
strip_prefix path base =
    if starts_with path (base ++ text "/")
    then some (drop (length (base ++ text "/")) path)
    else none

-- The first of at least two components is `new` or `cur`.
unfoldable pub subdir_of : Text → Option Text
subdir_of rel =
    let subdir = before_first (text "/") rel in
    if not (subdir == rel) && contains (text "new" ∷ text "cur" ∷ []) subdir
    then some subdir
    else none

abbrev on_side : OutboxSide → Option Text → Option (OutboxSide × Text)
on_side side none = none
on_side side (some subdir) = some (side, subdir)

-- A path that is the base itself has no component below it.
unfoldable pub classify_path : Text → Text → Text → Option (OutboxSide × Text)
classify_path path outbox_ab failed_ab = elim (strip_prefix path outbox_ab) [
  | some rel ↦ on_side outbox (subdir_of rel)
  | none ↦ elim (strip_prefix path failed_ab) [
    | some rel ↦ on_side failed (subdir_of rel)
    | none ↦ none
  ]
]

-- `file_name` is that of the path, where it is UTF-8. The subdirectory is never read.
pub record OutboxEvent : Type 0 where
  pub side : OutboxSide
  pub path : Text
  pub file_name : Option Text
  pub subdir : Text
  pub kind : RawEventKind

pub record PendingRename : Type 0 where
  pub side : OutboxSide
  pub seen_at : ℕ

-- What the loop of an account holds.
pub record Watched (H : Host) : Type 0 where
  pub disk : H.State
  pub known_failures : List Text
  pub pending_renames : Dict Text PendingRename
  pub retry_queue : RetrySchedule

-- `set.remove(name)` and `set.insert(name)`
unfoldable pub set_remove : Text → List Text → List Text
set_remove name s = keep (λ n. not (n == name)) s

unfoldable pub set_insert : Text → List Text → List Text
set_insert name s = if contains s name then s else name ∷ s

abbrev pub rename_pair_window : ℕ
rename_pair_window = 500

module _ (H : Host) (sidecar_dir : Text) (now : ℕ) where
  abbrev pub enqueue : Text → Watched H → Watched H
  enqueue basename w = record w { retry_queue = schedule w.retry_queue basename now }

  -- A message that comes back from Failed: its headers and its sidecar are made as new.
  unfoldable pub drag_back : Text → Text → Watched H → Watched H
  drag_back path basename w =
      let stripped = (strip_family2_headers_in_place H path w.disk).1 in
      enqueue basename (record w {
        disk = reset_sidecar_for_retry H sidecar_dir basename stripped;
        known_failures = set_remove basename w.known_failures;
      })

  -- A rename to the Outbox, by where it began.
  unfoldable pub paired : OutboxSide → Text → Text → Watched H → Watched H
  paired failed path basename w = drag_back path basename w
  paired outbox path basename w = enqueue basename w

  unfoldable pub arrive : Text → Text → Option PendingRename → Watched H → Watched H
  arrive path basename none w = enqueue basename w
  arrive path basename (some pending) w =
      paired pending.side path basename
        (record w { pending_renames = Dict.remove basename w.pending_renames })

  abbrev leave : OutboxSide → Text → Watched H → Watched H
  leave side basename w = record w {
    pending_renames =
        Dict.insert basename (record { side = side; seen_at = now }) w.pending_renames;
  }

  -- The match on side and kind.
  unfoldable pub dispatch : OutboxSide → RawEventKind → Text → Text → Watched H → Watched H
  dispatch outbox create_or_rename_to path basename w =
      arrive path basename (Dict.get basename w.pending_renames) w
  dispatch outbox remove path basename w = record w {
    retry_queue = RetrySchedule.remove w.retry_queue basename;
  }
  dispatch outbox rename_from path basename w = leave outbox basename w
  dispatch failed create_or_rename_to path basename w = record w {
    known_failures = set_insert basename w.known_failures;
    retry_queue = RetrySchedule.remove w.retry_queue basename;
  }
  dispatch failed remove path basename w = record w {
    known_failures = set_remove basename w.known_failures;
  }
  dispatch failed rename_from path basename w = leave failed basename w

  unfoldable pub handle_event : OutboxEvent → Watched H → Watched H
  handle_event ev w = elim ev.file_name [
    | none ↦ w
    | some filename ↦
        if starts_with filename (text ".")
        then w
        else dispatch ev.side ev.kind ev.path (strip_flags filename) w
  ]

  abbrev pub is_expired : PendingRename → Bool
  is_expired p = ltb rename_pair_window (now - p.seen_at)

  unfoldable pub expire_side : OutboxSide → Text → Watched H → Watched H
  expire_side failed name w = record w { known_failures = set_remove name w.known_failures }
  expire_side outbox name w = w

  unfoldable pub expire_name : Text → Option PendingRename → Watched H → Watched H
  expire_name name none w = w
  expire_name name (some pending) w =
      expire_side pending.side name
        (record w { pending_renames = Dict.remove name w.pending_renames })

  -- The loop over the expired names.
  unfoldable pub expire_names : List Text → Watched H → Watched H
  expire_names [] w = w
  expire_names (name ∷ names) w =
      expire_names names (expire_name name (Dict.get name w.pending_renames) w)

  unfoldable pub expired_names : Dict Text PendingRename → List Text
  expired_names = filter_map λ (e : Text × PendingRename). if is_expired e.1 then some e.0 else none

  unfoldable pub expire_pending_renames : Watched H → Watched H
  expire_pending_renames w = expire_names (expired_names w.pending_renames) w
