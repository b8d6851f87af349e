-- ===== src/Daemon/Loop.antt =====
-- src/daemon/submit.rs: `run_account_submit_loop_inner` from the start-up scan on. The loop is a
-- relation between the states before and after one turn, since the clock, the watcher and the
-- network choose what a turn does, and others change the disk meanwhile. A run of turns may end
-- after any of them, as a cancellation ends the loop; one that goes on after a cancellation is
-- allowed and does not happen.
pub mod Reachable
pub mod Follows
use jmapsyncd.Base.{
  ℕ, ◌+◌, ◌-◌, ◌*◌, Bool, true, false, Option, none, some, List, [], ◌∷◌, Text, if◌then◌else◌,
}
use jmapsyncd.Base.Strings.{after_last}
use jmapsyncd.Config.{SubmitConfig}
use jmapsyncd.Daemon.Deliver.{Moment, Mailing, handle_submit_attempt}
use jmapsyncd.Daemon.Notifier.{FailureNotifier}
use jmapsyncd.Daemon.Outbox.{Watched, OutboxEvent, expire_pending_renames, handle_event}
use jmapsyncd.Daemon.RetrySchedule.{RetrySchedule, empty, schedule, drain_due}
use jmapsyncd.Daemon.Sidecar.{
  Host, SidecarState, RetryState, load, next_at_epoch_secs, scan_maildir_files, scan_basenames,
}
use jmapsyncd.Daemon.Submission.{strip_flags}
use jmapsyncd.Daemon.Submission.Context.{SubmitContext, Server}

pub record Loop (H : Host) : Type 0 where
  pub watched : Watched H
  pub failure_notifier : FailureNotifier

abbrev pub basename_at : Text → Text
basename_at path = strip_flags (after_last b'/' path)

abbrev unwrap_or : ℕ → Option ℕ → ℕ
unwrap_or d none = d
unwrap_or d (some n) = n

-- What the start-up reads of the clocks: seconds since the epoch, and an instant in milliseconds.
module _ (H : Host) (sidecar_dir : Text) (now_epoch_secs now : ℕ) where
  abbrev retry_at : Option RetryState → Option ℕ
  retry_at none = none
  retry_at (some r) = next_at_epoch_secs H r

  -- When a message is due after a start.
  unfoldable pub due_at_start : H.State → Text → ℕ
  due_at_start d basename =
      now
      + 1000
        * (unwrap_or now_epoch_secs (retry_at (load H sidecar_dir basename d).retry)
            - now_epoch_secs)

  unfoldable pub enqueue_all : H.State → List Text → RetrySchedule → RetrySchedule
  enqueue_all d [] q = q
  enqueue_all d (path ∷ paths) q =
      enqueue_all d paths (schedule q (basename_at path) (due_at_start d (basename_at path)))

  unfoldable pub start : H.State → Text → Text → Watched H
  start d outbox failed = record {
    disk = d;
    known_failures = scan_basenames H d failed;
    pending_renames = [];
    retry_queue = enqueue_all d (scan_maildir_files H d outbox) empty;
  }

-- What an attempt of one turn finds: what others have done to the disk since the last step, whether
-- the daemon has been stopped, and the server and the rest as they are then.
pub record Visit (H : Host) : Type 0 where
  pub meanwhile : H.State → H.State
  pub is_cancelled : Bool
  pub server : Server
  pub moment : Moment

-- What a turn is about, with the instant of its step.
pub data Label (H : Host) : Type 0 where
  woken : ℕ → (Text → Visit H) → Label H
  seen : ℕ → OutboxEvent → Label H

abbrev pub mailing : {H : Host} → Loop H → RetrySchedule → Mailing H
mailing l q = record {
  disk = l.watched.disk;
  retry_queue = q;
  failure_notifier = l.failure_notifier;
}

abbrev pub with_mailing : {H : Host} → Loop H → Mailing H → Loop H
with_mailing l w = record {
  watched = record l.watched { disk = w.disk; retry_queue = w.retry_queue };
  failure_notifier = w.failure_notifier;
}

-- The disk after what others have done.
abbrev pub changed : {H : Host} → (H.State → H.State) → Loop H → Loop H
changed meanwhile l = record l { watched = record l.watched { disk = meanwhile l.watched.disk } }

module _ (H : Host) (ctx : SubmitContext) (submit_cfg : SubmitConfig)
    (sidecar_dir outbox failed : Text) where
  unfoldable pub attempt_one : Visit H → Text → Mailing H → Mailing H
  attempt_one visit name w =
      handle_submit_attempt H visit.server ctx submit_cfg sidecar_dir outbox failed visit.moment
        name (record w { disk = visit.meanwhile w.disk })

  -- The messages that were due, one after the other, until the daemon is stopped.
  unfoldable pub attempt_all : (Text → Visit H) → List Text → Mailing H → Mailing H
  attempt_all visit [] w = w
  attempt_all visit (name ∷ names) w =
      let rest = attempt_all visit names (attempt_one (visit name) name w) in
      if (visit name).is_cancelled then w else rest

  abbrev pub swept : ℕ → Loop H → Loop H
  swept now l = record l { watched = expire_pending_renames H sidecar_dir now l.watched }

  unfoldable pub on_due : ℕ → (Text → Visit H) → Loop H → Loop H
  on_due now visit l =
      let (names, q) = drain_due now l.watched.retry_queue in
      with_mailing l (attempt_all visit names (mailing l q))

  unfoldable pub on_event : ℕ → OutboxEvent → Loop H → Loop H
  on_event now ev l = record l { watched = handle_event H sidecar_dir now ev l.watched }

  -- One turn of the loop: what others do to the disk, the sweep, and a step.
  pub data Turn : Label H → Loop H → Loop H → Type 0 where
    due :
        (l : Loop H) (meanwhile : H.State → H.State) (now now' : ℕ) (visit : Text → Visit H)
        → Turn (woken now' visit) l (on_due now' visit (swept now (changed meanwhile l)))
    event :
        (l : Loop H) (meanwhile : H.State → H.State) (now now' : ℕ) (ev : OutboxEvent)
        → Turn (seen now' ev) l (on_event now' ev (swept now (changed meanwhile l)))

  pub data Turns : List (Label H) → Loop H → Loop H → Type 0 where
    done : (l : Loop H) → Turns [] l l
    turn :
        (label : Label H) (labels : List (Label H)) (l k m : Loop H)
        → Turn label l k
        → Turns labels k m
        → Turns (label ∷ labels) l m
