-- ===== src/Daemon/Deliver.antt =====
-- src/daemon/submit.rs: `handle_submit_attempt`, and `wait_for_connectivity_or_delay` of
-- src/daemon/resilience.rs. What the clock, the generator of ulids, the jitter, nm-online and the
-- cancellation give in one attempt is a parameter; notifications are left to `FailureNotifier`.
pub mod Laws
pub mod Disk
use jmapsyncd.Base.{
  ℕ, zero, suc, not, ◌+◌, ◌-◌, ◌^◌, min, Bool, true, false, Option, none, some, List, [], ◌∷◌, Text,
  if◌then◌else◌,
}
use jmapsyncd.Config.{SubmitConfig}
use jmapsyncd.Daemon.Backoff.{raw_delay, u64_max}
use jmapsyncd.Daemon.Notifier
use jmapsyncd.Daemon.Notifier.{FailureNotifier}
use jmapsyncd.Daemon.RetrySchedule.{RetrySchedule, schedule}
use jmapsyncd.Daemon.Sidecar.{
  Host, SidecarState, RetryState, sidecar_path, load, save, move_to_failed_atomic,
  locate_and_read_outbox_message,
}
use jmapsyncd.Daemon.Submission.{SubmitOutcome, success, transient, permanent}
use jmapsyncd.Daemon.Submission.Attempt.{Message, submit_one}
use jmapsyncd.Daemon.Submission.Context.{SubmitContext, Server}

-- What `wait_for_network_manager` answers.
pub data NetworkWait : Type 0 where
  online unavailable cancelled : NetworkWait

-- What an attempt gets from outside. `waited` is how long, in whole seconds, `network` took to
-- come;
-- `cancelled_asleep` and `cancelled_after` say whether the daemon was stopped during the sleep that
-- follows, and at its end. `jitter` turns the delay of the schedule, in seconds, into the
-- one that is used, `reason` is the text of a failure, and `sanitized_reason` and `failed_at` are
-- what `inject_family2_headers` puts in.
pub record Moment : Type 0 where
  pub iso_now : Text
  pub epoch_secs_now : ℕ
  pub iso_from_epoch_secs : ℕ → Text
  pub jitter : ℕ → ℕ
  pub network : NetworkWait
  pub waited : ℕ
  pub cancelled_asleep : Bool
  pub cancelled_after : Bool
  pub now : ℕ
  pub ulid : Text
  pub reason : Text
  pub sanitized_reason : Text
  pub failed_at : Text

pub record Mailing (H : Host) : Type 0 where
  pub disk : H.State
  pub retry_queue : RetrySchedule
  pub failure_notifier : FailureNotifier

-- The sleep for what remains of the delay, if anything does.
unfoldable pub sleep_remaining : ℕ → Moment → Bool
sleep_remaining zero m = not m.cancelled_after
sleep_remaining (suc secs) m = if m.cancelled_asleep then false else not m.cancelled_after

unfoldable pub wait_for_connectivity_or_delay : ℕ → Moment → Bool
wait_for_connectivity_or_delay minimum_delay m = elim m.network [
  | cancelled ↦ false
  | online ↦ sleep_remaining (minimum_delay - m.waited) m
  | unavailable ↦ sleep_remaining (minimum_delay - m.waited) m
]

abbrev pub u32_max : ℕ
u32_max = 2 ^ 32 - 1

-- `attempts`, this one included.
abbrev pub attempts_of : Option RetryState → ℕ
attempts_of none = 1
attempts_of (some r) = min (suc r.attempts) u32_max

module _ (H : Host) (S : Server) (ctx : SubmitContext) (submit_cfg : SubmitConfig)
    (sidecar_dir outbox failed : Text) (m : Moment) where
  abbrev pub marked : SidecarState → SidecarState
  marked s = record s { in_flight = some m.iso_now }

  abbrev pub delay_of : SidecarState → ℕ
  delay_of s =
      m.jitter
        (raw_delay (attempts_of s.retry) submit_cfg.retry_base_secs submit_cfg.retry_cap_secs)

  -- The sidecar after a failure that will be retried.
  abbrev pub backed_off : SidecarState → SidecarState
  backed_off s = record s {
    in_flight = none;
    retry = some (record {
      attempts = attempts_of s.retry;
      next_at = some (m.iso_from_epoch_secs (min (m.epoch_secs_now + delay_of s) u64_max));
      last_error = some m.reason;
    });
  }

  abbrev pub forget_sidecar : Text → H.State → H.State
  forget_sidecar basename d = (H.remove_file d (sidecar_path sidecar_dir basename)).1

  -- The match on the outcome.
  unfoldable pub settle : SubmitOutcome → Text → Text → SidecarState → Mailing H → Mailing H
  settle success path basename s w = record w {
    disk = forget_sidecar basename (H.remove_file w.disk path).1;
    failure_notifier = (Notifier.recovered w.failure_notifier).1;
  }
  settle transient path basename s w = record w {
    disk = (save H (backed_off s) sidecar_dir basename w.disk).1;
    failure_notifier = (Notifier.failed w.failure_notifier).1;
    retry_queue =
        if wait_for_connectivity_or_delay (delay_of s) m
        then schedule w.retry_queue basename m.now
        else w.retry_queue;
  }
  settle permanent path basename s w = record w {
    disk =
        forget_sidecar basename
          (move_to_failed_atomic H path failed basename m.sanitized_reason m.failed_at m.ulid
            w.disk).1;
  }

  -- The outcome of the attempt on a message that was found.
  unfoldable pub outcome : Text → SidecarState → SubmitOutcome
  outcome bytes s =
      (submit_one S ctx (record { bytes = bytes; envelope = s.envelope; send_at = s.send_at })).0

  unfoldable pub attempt : Text → Option (Text × Text) → Mailing H → Mailing H
  attempt basename none w = record w { disk = forget_sidecar basename w.disk }
  attempt basename (some (path, bytes)) w =
      let s = load H sidecar_dir basename w.disk in
      settle (outcome bytes s) path basename (marked s)
        (record w { disk = (save H (marked s) sidecar_dir basename w.disk).1 })

  unfoldable pub handle_submit_attempt : Text → Mailing H → Mailing H
  handle_submit_attempt basename w =
      attempt basename (locate_and_read_outbox_message H w.disk outbox basename) w
