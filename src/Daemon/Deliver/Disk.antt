-- ===== src/Daemon/Deliver/Disk.antt =====
-- src/daemon/submit.rs: what an attempt leaves on a disk without errors.
use jmapsyncd.Base.{
  ℕ, suc, ◌+◌, ◌≡◌, ◌≢◌, refl, ◌∙◌, ap, min, Option, none, some, [], Text, text, text_eq, all,
}
use jmapsyncd.Config.{SubmitConfig}
use jmapsyncd.Daemon.Backoff.{raw_delay, u64_max}
use jmapsyncd.Daemon.Deliver.{
  Moment, Mailing, u32_max, attempts_of, marked, backed_off, settle, outcome, attempt,
  handle_submit_attempt,
}
use jmapsyncd.Daemon.Headers.{inject_family2_headers}
use jmapsyncd.Daemon.Sidecar.{
  Host, SidecarState, RetryState, default_sidecar, join, sidecar_path, load, save,
  move_to_failed_atomic, locate_and_read_outbox_message,
}
use jmapsyncd.Daemon.Sidecar.Working.{
  IsWorking, Prints, IsApart, load-saved, save_other, read-locate, move_to_failed,
}
use jmapsyncd.Daemon.Submission.{transient, permanent, envelope_validation_error, is_blank}
use jmapsyncd.Daemon.Submission.Attempt.{submit_one}
use jmapsyncd.Daemon.Submission.Context.{SubmitContext, Server}

-- The attempts so far.
abbrev pub previous : Option RetryState → ℕ
previous none = 0
previous (some r) = r.attempts

module _ (H : Host) (S : Server) (ctx : SubmitContext) (cfg : SubmitConfig)
    (dir outbox failed : Text) (m : Moment) where
  -- The sidecar with a count of attempts, and the rest of what a failure that passes leaves.
  abbrev pub counted : ℕ → SidecarState → SidecarState
  counted attempts old =
      let delay = m.jitter (raw_delay attempts cfg.retry_base_secs cfg.retry_cap_secs) in
      record {
        envelope = old.envelope;
        send_at = old.send_at;
        submitted_at = old.submitted_at;
        account = old.account;
        retry = some (record {
          attempts = attempts;
          next_at = some (m.iso_from_epoch_secs (min (m.epoch_secs_now + delay) u64_max));
          last_error = some m.reason;
        });
        in_flight = none;
      }

  -- The sidecar after a failure that passes, by the one before.
  abbrev pub after_transient : SidecarState → SidecarState
  after_transient old = counted (min (suc (previous old.retry)) u32_max) old

  attempts_of-previous : (r : Option RetryState) → attempts_of r ≡ min (suc (previous r)) u32_max
  attempts_of-previous none = refl
  attempts_of-previous (some r) = refl

  backed_off-after_transient :
      (old : SidecarState)
      → backed_off H S ctx cfg dir outbox failed m (marked H S ctx cfg dir outbox failed m old)
        ≡ after_transient old
  backed_off-after_transient old = ap (λ n. counted n old) (attempts_of-previous old.retry)

  -- On a disk without errors, an attempt that fails in a way that passes leaves a sidecar that
  -- counts one attempt more than before, at most what a `u32` holds, has the time of the next one
  -- by the delay for that count and the reason, is not in flight, and is otherwise as it was; it
  -- is what a daemon that restarts loads. The new sidecar is printed and parsed back.
  pub handle_submit_attempt-sidecar :
      (basename path bytes : Text) (w : Mailing H)
      → let old = load H dir basename w.disk in
        IsWorking H
        → Prints H (after_transient old)
        → locate_and_read_outbox_message H w.disk outbox basename ≡ some (path, bytes)
        → (submit_one S ctx
            (record { bytes = bytes; envelope = old.envelope; send_at = old.send_at })).0
          ≡ transient
        → load H dir basename
            (handle_submit_attempt H S ctx cfg dir outbox failed m basename w).disk
          ≡ after_transient old
  unfolding handle_submit_attempt attempt outcome settle
  handle_submit_attempt-sidecar basename path bytes w works prints e o =
      let old = load H dir basename w.disk in
      let marked_disk =
        (save H (marked H S ctx cfg dir outbox failed m old) dir basename w.disk).1 in
      rw (e, attempt, o, settle)
        (ap (λ (s : SidecarState). load H dir basename (save H s dir basename marked_disk).1)
            (backed_off-after_transient old)
          ∙ load-saved H works (after_transient old) dir basename marked_disk prints)

  load-default :
      (basename : Text) (d : H.State)
      → H.read d (sidecar_path dir basename) ≡ none
      → load H dir basename d ≡ default_sidecar
  unfolding load
  load-default basename d r = rw (load, r) refl

  default-permanent :
      (bytes : Text) → outcome H S ctx cfg dir outbox failed m bytes default_sidecar ≡ permanent
  unfolding outcome submit_one envelope_validation_error is_blank all
  default-permanent bytes = refl

  no_requests :
      (bytes : Text)
      → (submit_one S ctx
          (record { bytes = bytes; envelope = default_sidecar.envelope; send_at = none })).1
        ≡ []
  unfolding submit_one envelope_validation_error is_blank all
  no_requests bytes = refl

  abbrev pub failed_file : Text → Text
  failed_file basename = join (join failed (text "new")) basename

  -- On a disk without errors, an attempt on a message that has no sidecar yet fails for good,
  -- although the tool that queued it may be about to write the sidecar: nothing is asked of the
  -- server, the message leaves the Outbox and is in Failed with the headers of the failure, and
  -- the queue stays as it was. The message, its place in Failed and its sidecar are different
  -- files.
  pub handle_submit_attempt-no_sidecar :
      (basename path bytes : Text) (w : Mailing H)
      → IsWorking H
      → IsApart dir basename path
      → sidecar_path dir basename ≢ failed_file basename
      → failed_file basename ≢ path
      → locate_and_read_outbox_message H w.disk outbox basename ≡ some (path, bytes)
      → H.read w.disk (sidecar_path dir basename) ≡ none
      → let new = handle_submit_attempt H S ctx cfg dir outbox failed m basename w in
        let sidecar = load H dir basename w.disk in
        ((submit_one S ctx
            (record { bytes = bytes; envelope = sidecar.envelope; send_at = sidecar.send_at })).1
          ≡ [])
        × (H.read new.disk (failed_file basename)
            ≡ some (inject_family2_headers bytes m.sanitized_reason m.failed_at m.ulid))
        × (H.read new.disk path ≡ none)
        × (new.retry_queue ≡ w.retry_queue)
  unfolding handle_submit_attempt attempt settle
  handle_submit_attempt-no_sidecar basename path bytes w works apart aside distinct e r =
      let saved =
        (save H (marked H S ctx cfg dir outbox failed m default_sidecar) dir basename w.disk).1 in
      let moved =
        (move_to_failed_atomic H path failed basename m.sanitized_reason m.failed_at m.ulid
          saved).1 in
      let (there, gone) =
        move_to_failed H works path failed basename m.sanitized_reason m.failed_at m.ulid bytes
          saved
          (save_other H works (marked H S ctx cfg dir outbox failed m default_sidecar) dir basename
              path w.disk apart
            ∙ read-locate H works w.disk outbox basename path bytes e)
          distinct in
      rw (e, attempt, load-default basename w.disk r, default-permanent bytes, settle)
        (
          no_requests bytes,
          works.remove_other moved (sidecar_path dir basename) (failed_file basename) aside ∙ there,
          works.remove_other moved (sidecar_path dir basename) path apart.1 ∙ gone,
          refl,
        )
