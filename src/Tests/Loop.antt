-- ===== src/Tests/Loop.antt =====
-- The loop, one attempt, and the tool that queues a message, on a disk in memory.
use jmapsyncd.Base.{
  ◌≡◌, refl, ◌&&◌, none, some, [], ◌∷◌, ◌||◌, false, Text, text, ◌==◌, text_eq, nat_eq, option_eq,
  contains, all, if◌then◌else◌,
}
use jmapsyncd.Base.Dict
use jmapsyncd.Tests.Pass.{names_in}
use jmapsyncd.Email.Files.{parent_of}
use jmapsyncd.Base.Strings.{after_last, rsplit_once}
use jmapsyncd.Base.Dict.{Dict, get-insert}
use jmapsyncd.Daemon.Deliver.{Mailing, handle_submit_attempt}
use jmapsyncd.Daemon.Deliver.Laws.{retries, handle_submit_attempt-queue}
use jmapsyncd.Daemon.Loop.{Loop, Visit, start, on_event, changed, on_due, swept}
use jmapsyncd.Daemon.Loop.Reachable.{is_some, holds, IsFlat, start-queue, empty-Agrees}
use jmapsyncd.Daemon.RetrySchedule.{empty}
use jmapsyncd.Daemon.RetrySchedule.Agrees.{Agrees}
use jmapsyncd.Daemon.Sidecar.{load, locate_in, locate_and_read_outbox_message}
use jmapsyncd.Daemon.Submission.{envelope_validation_error, is_blank, from_jmap_error}
use jmapsyncd.Daemon.Submission.Attempt.{submit_one, send_message, send_time}
use jmapsyncd.Base.{◌++◌}
use jmapsyncd.Base.Strings.{split_once}
use jmapsyncd.Daemon.Deliver.Disk.{
  after_transient, handle_submit_attempt-sidecar, handle_submit_attempt-no_sidecar,
}
use jmapsyncd.Daemon.Sidecar.Working.{Prints}
use jmapsyncd.Daemon.Headers.{inject_family2_headers}
use jmapsyncd.Daemon.Loop.Follows.{Follows}
use jmapsyncd.Daemon.Headers.{crlf}
use jmapsyncd.Queue.{line_starts_with_header, same_lowercase, strip_header_case_insensitive}
use jmapsyncd.Queue.Stripped.{strip_header_case_insensitive-line}
use jmapsyncd.Tests.Outbox.{
  ne, apart, Files, moment, host, context, accepting, away, config, outbox_file, notifier,
  host-IsWorking, arrival,
}

IsFlat-new : IsFlat host (text "s") 10 5 outbox_file (text "Outbox/new")
unfolding names_in parent_of after_last rsplit_once text_eq nat_eq contains
IsFlat-new = (refl, tt)

IsFlat-cur : IsFlat host (text "s") 10 5 outbox_file (text "Outbox/cur")
unfolding names_in parent_of after_last rsplit_once text_eq nat_eq contains
IsFlat-cur = tt

start-queue_example :
    let started = start host (text "s") 10 5 outbox_file (text "Outbox") (text "Failed") in
    Agrees started.retry_queue
    × ((n : Text)
        → is_some (Dict.get n started.retry_queue.index) ≡ (
            holds host (text "s") 10 5 outbox_file (text "Outbox/new") n
            || holds host (text "s") 10 5 outbox_file (text "Outbox/cur") n))
start-queue_example =
    start-queue host (text "s") 10 5 outbox_file (text "Outbox") (text "Failed") IsFlat-new
      IsFlat-cur

abbrev started : Loop host
started = record {
  watched = start host (text "s") 10 5 outbox_file (text "Outbox") (text "Failed");
  failure_notifier = notifier;
}

-- The server is away, and someone deletes a file meanwhile.
abbrev visit : Text → Visit host
visit n = record {
  meanwhile = λ d. Dict.remove (text "Outbox/new/other") d;
  is_cancelled = false;
  server = away;
  moment = moment;
}

abbrev later : Loop host
later = on_due host context config (text "s") (text "Outbox") (text "Failed") 7 visit (
    swept host context config (text "s") (text "Outbox") (text "Failed") 6
      (changed (λ d. d) started))

abbrev last : Loop host
last = on_event host context config (text "s") (text "Outbox") (text "Failed") 9 arrival (
    swept host context config (text "s") (text "Outbox") (text "Failed") 8
      (changed (λ d. []) later))

abbrev due_now : Mailing host
due_now = record { disk = outbox_file; retry_queue = empty; failure_notifier = notifier }

handle_submit_attempt-queue_example :
    let new =
      handle_submit_attempt host away context config
        (text "s")
        (text "Outbox")
        (text "Failed")
        moment
        (text "n")
        due_now in
    let again =
      retries host away context config
        (text "s")
        (text "Outbox")
        (text "Failed")
        moment
        (text "n")
        due_now
        (locate_and_read_outbox_message host outbox_file (text "Outbox") (text "n")) in
    Agrees new.retry_queue
    × ((n : Text)
        → Dict.get n new.retry_queue.index
          ≡ (if n == text "n" && again then some 5 else Dict.get n empty.index))
handle_submit_attempt-queue_example =
    handle_submit_attempt-queue host away context config (text "s") (text "Outbox") (text "Failed")
      moment (text "n") due_now empty-Agrees

printed_after : Prints host (
    after_transient host away context config
      (text "s")
      (text "Outbox")
      (text "Failed")
      moment
      (load host (text "s") (text "n") outbox_file))
unfolding load Dict.get text_eq option_eq
printed_after = (text "b", refl, refl)

handle_submit_attempt-sidecar_example :
    load host
      (text "s")
      (text "n")
      (handle_submit_attempt host away context config
        (text "s")
        (text "Outbox")
        (text "Failed")
        moment
        (text "n")
        due_now).disk
    ≡ after_transient host away context config
        (text "s")
        (text "Outbox")
        (text "Failed")
        moment
        (load host (text "s") (text "n") outbox_file)
unfolding locate_and_read_outbox_message locate_in load Dict.get text_eq nat_eq option_eq submit_one
    envelope_validation_error is_blank all send_time send_message from_jmap_error
handle_submit_attempt-sidecar_example =
    handle_submit_attempt-sidecar host away context config (text "s") (text "Outbox")
      (text "Failed") moment (text "n") (text "Outbox/new/n") (text "hi") due_now host-IsWorking
      printed_after refl refl

-- The tool has written the message, and not yet the sidecar.
abbrev bare_file : Files
bare_file = (text "Outbox/new/n", text "hi") ∷ []

abbrev too_early : Mailing host
too_early = record { disk = bare_file; retry_queue = empty; failure_notifier = notifier }

handle_submit_attempt-no_sidecar_example :
    let new =
      handle_submit_attempt host accepting context config
        (text "s")
        (text "Outbox")
        (text "Failed")
        moment
        (text "n")
        too_early in
    let sidecar = load host (text "s") (text "n") bare_file in
    ((submit_one accepting context
        (record { bytes = text "hi"; envelope = sidecar.envelope; send_at = sidecar.send_at })).1
      ≡ [])
    × (host.read new.disk (text "Failed/new/n")
        ≡ some (inject_family2_headers (text "hi") (text "down") (text "now") (text "U")))
    × (host.read new.disk (text "Outbox/new/n") ≡ none)
    × (new.retry_queue ≡ empty)
unfolding locate_and_read_outbox_message locate_in Dict.get text_eq option_eq
handle_submit_attempt-no_sidecar_example =
    handle_submit_attempt-no_sidecar host accepting context config (text "s") (text "Outbox")
      (text "Failed") moment (text "n") (text "Outbox/new/n") (text "hi") too_early host-IsWorking
      apart (ne (text "s/n.json") (text "Failed/new/n") refl)
      (ne (text "Failed/new/n") (text "Outbox/new/n") refl) refl refl

strip_header_case_insensitive-line_example :
    strip_header_case_insensitive
      ((b'X' ∷ text "-JMAP-Send-At: now") ++ (crlf ++ text "To: b@y"))
      (text "x-jmap-send-at")
    ≡ strip_header_case_insensitive (text "To: b@y") (text "x-jmap-send-at")
unfolding all line_starts_with_header split_once same_lowercase nat_eq
strip_header_case_insensitive-line_example =
    strip_header_case_insensitive-line b'X' (text "-JMAP-Send-At: now") (text "To: b@y")
      (text "x-jmap-send-at") refl refl refl refl
