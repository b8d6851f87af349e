-- ===== src/Tests/Outbox.antt =====
-- The submission loop on a disk in memory, with a server that accepts and one that is away.
use jmapsyncd.Base.{
  ◌≡◌, ◌≢◌, refl, ◌∙◌, ltb, ◌-◌, arith, Bool, true, false, not, Option, none, some, List, [], ◌∷◌,
  Text, text, ◌==◌, ==_refl, text_eq, nat_eq, option_eq, contains, any, starts_with, if◌then◌else◌,
}
use jmapsyncd.Base.Dict
use jmapsyncd.Base.Dict.{Dict, get-insert, get-remove}
use jmapsyncd.Base.Result.{Result, ok, err}
use jmapsyncd.Config.{SubmitConfig, auto}
use jmapsyncd.Daemon.Deliver.{Moment, unavailable}
use jmapsyncd.Daemon.Loop.Reachable.{empty-Agrees}
use jmapsyncd.Daemon.Notifier.{FailureNotifier}
use jmapsyncd.Daemon.Outbox.{
  outbox, failed, create_or_rename_to, OutboxEvent, Watched, handle_event, expire_pending_renames,
  rename_pair_window,
}
use jmapsyncd.Daemon.Outbox.Expired.{Distinct, is_failed}
use jmapsyncd.Daemon.Outbox.Queue.{due_after, concerns, handle_event-queue}
use jmapsyncd.Daemon.Outbox.DragBack.{fresh, leaves_failed, comes_to_outbox, handle_event-drag_back}
use jmapsyncd.Daemon.Sidecar.Working.{IsWorking, Prints, IsApart}
use jmapsyncd.Daemon.Headers.{strip_family2_headers}
use jmapsyncd.Email.Files.{parent_of}
use jmapsyncd.Base.Strings.{after_last, rsplit_once}
use jmapsyncd.Daemon.RetrySchedule.{empty}
use jmapsyncd.Daemon.RetrySchedule.Agrees.{Agrees}
use jmapsyncd.Daemon.Sidecar.{
  Host, SidecarState, default_sidecar, load, save, and_then, tmp_neighbour,
}
use jmapsyncd.Daemon.Sidecar.RoundTrip.{IsReliable, load-save}
use jmapsyncd.Daemon.Submission.{transport, Envelope, strip_flags}
use jmapsyncd.Daemon.Submission.Attempt.{
  Message, submission, state_responses, reconcile_after_import,
}
use jmapsyncd.Daemon.Submission.Context.{
  SubmitContext, Request, upload, import_and_submit, fetch_state, submit, stored, MethodResponse,
  import_email, set_submission, get_email, query_submission, Server,
}
use jmapsyncd.Daemon.Submission.Delivered.{Delivered}
use jmapsyncd.Daemon.Submission.Requests.{reconcile_after_import-requests}
use jmapsyncd.Tests.Pass.{names_in}

abbrev pub Files : Type 0
Files = Dict Text Text

abbrev pub envelope : Envelope
envelope = record { from = text "a@x"; to = text "b@y" ∷ [] }

abbrev pub sidecar : SidecarState
sidecar = record default_sidecar { envelope = envelope }

abbrev pub moment : Moment
moment = record {
  iso_now = text "now";
  epoch_secs_now = 10;
  iso_from_epoch_secs = λ n. text "later";
  jitter = λ n. n;
  network = unavailable;
  waited = 1;
  cancelled_asleep = false;
  cancelled_after = false;
  now = 5;
  ulid = text "U";
  reason = text "down";
  sanitized_reason = text "down";
  failed_at = text "now";
}

-- The sidecar after one failure.
abbrev pub after_failure : SidecarState
after_failure = record sidecar {
  retry =
      some
        (record { attempts = 1; next_at = some (text "later"); last_error = some (text "down") });
}

unfoldable pub move : Files → Text → Option Text → Bool × Files
move d new none = (false, d)
move d new (some bytes) = (true, Dict.insert new bytes d)

abbrev pub printed : SidecarState → Text
printed s = elim s.in_flight [
  | some t ↦ text "m"
  | none ↦ elim s.retry [ none ↦ text "f" | some r ↦ text "b" ]
]

abbrev pub host : Host
host = record {
  State = Files;
  is_file = λ d path. not (Dict.get path d == none);
  read = λ d path. Dict.get path d;
  read_dir = λ d dir. some (names_in dir d);
  create_dir_all = λ d dir. (true, d);
  write = λ d path bytes. (true, Dict.insert path bytes d);
  rename = λ d old new. move d new (Dict.get old d);
  remove_file = λ d path. (true, Dict.remove path d);
  to_vec_pretty = λ s. some (printed s);
  from_slice = λ b. if b == text "b" then some after_failure else some sidecar;
  timestamp = λ s. none;
}

move_other :
    (d : Files) (new other : Text) (o : Option Text)
    → new ≢ other
    → Dict.get other (move d new o).1 ≡ Dict.get other d
unfolding move
move_other d new other none n = refl
move_other d new other (some bytes) n = get-insert other new bytes d ∙ ground (arith, n)

pub host-IsReliable : IsReliable host
unfolding move
host-IsReliable = record {
  read_written = λ d d' path bytes h. ground (arith, h, get-insert path path bytes d, ==_refl path);
  read_renamed =
      λ d d' old new bytes h k. ground (arith, h, k, get-insert new new bytes d, ==_refl new);
}

pub host-IsWorking : IsWorking host
unfolding move
host-IsWorking = record {
  write_ok = λ d path bytes. refl;
  read_written = λ d path bytes. get-insert path path bytes d ∙ ground (arith, ==_refl path);
  write_other = λ d path bytes other n. get-insert other path bytes d ∙ ground (arith, n);
  rename_ok = λ d old new bytes h. rw h refl;
  read_renamed =
      λ d old new bytes h. rw h (get-insert new new bytes d ∙ ground (arith, ==_refl new));
  rename_other = λ d old new other n k. move_other d new other (Dict.get old d) k;
  read_removed = λ d path. get-remove path path d ∙ ground (arith, ==_refl path);
  remove_other = λ d path other n. get-remove other path d ∙ ground (arith, n);
  create_ok = λ d path. refl;
  create_other = λ d path other. refl;
}

load-save_example :
    load host
      (text "s")
      (text "n")
      (Dict.insert (text "s/n.json") (text "b") (Dict.insert (text "s/.n.json.tmp") (text "b") []))
    ≡ after_failure
unfolding save and_then Dict.get Dict.insert text_eq move
load-save_example =
    load-save host after_failure (text "s") (text "n") []
      (Dict.insert (text "s/n.json") (text "b") (Dict.insert (text "s/.n.json.tmp") (text "b") []))
      host-IsReliable (λ bytes h. ground (arith, h)) refl

abbrev pub context : SubmitContext
context = record {
  account_id = text "A";
  identity_id = text "I";
  drafts_id = text "D";
  sent_id = text "S";
  scheduled_file_target_id = none;
}

unfoldable pub answer : Request → List MethodResponse
answer (upload bytes) = []
answer (import_and_submit i s) =
    import_email [] (λ id. none) (text "c" ∷ []) ∷ set_submission false true ∷ []
answer (fetch_state id) = get_email ((text "D" ∷ []) ∷ []) ∷ query_submission (text "s1" ∷ []) ∷ []
answer (submit s) = set_submission false true ∷ []

abbrev pub accepting : Server
accepting = record {
  default_account_id = text "A";
  get_identity = none;
  get_mailbox = none;
  upload = λ bytes. ok (text "B");
  send = λ r. ok (answer r);
  parse_from_rfc3339 = λ s. none;
}

abbrev pub away : Server
away = record accepting { upload = λ bytes. err (transport none) }

abbrev pub letter : Message
letter = record { bytes = text "hi"; envelope = envelope; send_at = none }

reconcile_after_import-requests_example :
    (reconcile_after_import accepting context envelope (text "E") none).1
    ≡ fetch_state (text "E")
      ∷ (if any (λ m. m == context.sent_id) (text "D" ∷ [])
          then []
          else submit (submission context envelope (text "s1" ∷ []) (stored (text "E")) none) ∷ [])
unfolding answer state_responses
reconcile_after_import-requests_example =
    reconcile_after_import-requests accepting context envelope (text "E") none
      (answer (fetch_state (text "E"))) (text "D" ∷ []) (text "s1" ∷ []) refl refl

abbrev pub config : SubmitConfig
config = record {
  from_address = text "a@x";
  identity_id = none;
  scheduled_folder = auto;
  retry_base_secs = 30;
  retry_cap_secs = 7200;
}

abbrev pub outbox_file : Files
outbox_file = (text "Outbox/new/n", text "hi") ∷ (text "s/n.json", text "x") ∷ []

abbrev pub notifier : FailureNotifier
notifier = record { account = text "A"; server = text "X"; is_failed = false }

abbrev pub waiting : Watched host
waiting = record {
  disk = outbox_file;
  known_failures = text "n" ∷ [];
  pending_renames = (text "n", record { side = failed; seen_at = 1 }) ∷ [];
  retry_queue = empty;
}

abbrev pub arrival : OutboxEvent
arrival = record {
  side = outbox;
  path = text "Outbox/new/n";
  file_name = some (text "n");
  subdir = text "new";
  kind = create_or_rename_to;
}

handle_event-queue_example :
    Agrees (handle_event host (text "s") 5 arrival waiting).retry_queue
    × ((n : Text)
        → Dict.get n (handle_event host (text "s") 5 arrival waiting).retry_queue.index ≡ (
            if concerns arrival n
            then due_after 5 outbox create_or_rename_to (Dict.get n empty.index)
            else Dict.get n empty.index))
handle_event-queue_example = handle_event-queue host (text "s") 5 arrival waiting empty-Agrees

not_hidden : starts_with (text "n") (text ".") ≡ false
unfolding starts_with nat_eq
not_hidden = refl

one_rename : Distinct waiting.pending_renames
unfolding Dict.get
one_rename = (refl, tt)

fresh_sidecar : Prints host (fresh (load host (text "s") (text "n") outbox_file))
unfolding load Dict.get text_eq option_eq
fresh_sidecar = (text "f", refl, refl)

in_window : ltb rename_pair_window (100 - 3) ≡ false
in_window = refl

pub ne : (a b : Text) → (a == b) ≡ false → a ≢ b
ne a b h e = ground (arith, h, e)

pub apart : IsApart (text "s") (text "n") (text "Outbox/new/n")
unfolding text_eq
apart = (
  ne (text "s/.n.json.tmp") (text "Outbox/new/n") refl,
  ne (text "s/n.json") (text "Outbox/new/n") refl,
)

abbrev left : Watched host
left =
    handle_event host (text "s") 3 (leaves_failed (text "Failed/new/n") (text "n") (text "new"))
      waiting

abbrev back : Watched host
back =
    handle_event host (text "s") 120 (comes_to_outbox (text "Outbox/new/n") (text "n") (text "new"))
      (expire_pending_renames host (text "s") 100 left)

handle_event-drag_back_example :
    (contains back.known_failures (text "n") ≡ false)
    × (Dict.get (text "n") back.pending_renames ≡ none)
    × (Dict.get (text "n") back.retry_queue.index ≡ some 120)
    × (host.read back.disk (text "Outbox/new/n") ≡ some (strip_family2_headers (text "hi")))
    × (load host (text "s") (text "n") back.disk
        ≡ fresh (load host (text "s") (text "n") outbox_file))
unfolding strip_flags Dict.get text_eq tmp_neighbour parent_of after_last rsplit_once nat_eq
handle_event-drag_back_example =
    handle_event-drag_back host (text "s") 3 100 120 (text "n") (text "Failed/new/n")
      (text "Outbox/new/n") (text "new") (text "new") (text "hi") waiting not_hidden empty-Agrees
      one_rename in_window host-IsWorking fresh_sidecar apart
      (ne (text "Outbox/new/.n.jmapsyncd-tmp") (text "s/n.json") refl) refl
