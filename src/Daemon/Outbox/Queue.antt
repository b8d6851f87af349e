-- ===== src/Daemon/Outbox/Queue.antt =====
-- src/daemon/submit.rs: what an event does to the retry queue.
use jmapsyncd.Base.{
  ℕ, ◌≡◌, refl, arith, inl, inr, Bool, false, not, ◌&&◌, Option, none, some, Text, text, ◌==◌,
  text_eq, nat_eq, starts_with, if◌then◌else◌, Bool-cases, Option-cases,
}
use jmapsyncd.Base.Dict
use jmapsyncd.Base.Dict.{Dict, get-insert, get-remove}
use jmapsyncd.Daemon.RetrySchedule.Agrees.{Agrees, remove-Agrees, schedule-Agrees}
use jmapsyncd.Daemon.Outbox.{
  OutboxSide, outbox, failed, RawEventKind, create_or_rename_to, remove, rename_from, OutboxEvent,
  PendingRename, Watched, drag_back, paired, arrive, dispatch, handle_event,
}
use jmapsyncd.Daemon.Sidecar.{Host}
use jmapsyncd.Daemon.Submission.{strip_flags}

-- When the message of an event is due afterwards.
abbrev pub due_after : ℕ → OutboxSide → RawEventKind → Option ℕ → Option ℕ
due_after now outbox create_or_rename_to before = some now
due_after now outbox remove before = none
due_after now outbox rename_from before = before
due_after now failed create_or_rename_to before = none
due_after now failed remove before = before
due_after now failed rename_from before = before

-- The message that an event is about.
abbrev pub concerns : OutboxEvent → Text → Bool
concerns ev n = elim ev.file_name [
  | none ↦ false
  | some f ↦ not (starts_with f (text ".")) && n == strip_flags f
]

module _ (H : Host) (dir : Text) (now : ℕ) where
  -- The queue of a state after a step, against that before it.
  abbrev Moves : (old new : Watched H) → Text → (Option ℕ → Option ℕ) → Type 0
  Moves old new basename f =
      Agrees new.retry_queue
      × ((n : Text)
          → Dict.get n new.retry_queue.index ≡ (
              if n == basename
              then f (Dict.get n old.retry_queue.index)
              else Dict.get n old.retry_queue.index))

  stays : (w : Watched H) (basename : Text) → Agrees w.retry_queue → Moves w w basename (λ o. o)
  stays w basename a = (a, λ n. ground arith)

  paired-Moves :
      (side : OutboxSide) (path basename : Text) (w : Watched H)
      → Agrees w.retry_queue
      → Moves w (paired H dir now side path basename w) basename (λ o. some now)
  unfolding paired drag_back
  paired-Moves failed path basename w a = schedule-Agrees w.retry_queue basename now a
  paired-Moves outbox path basename w a = schedule-Agrees w.retry_queue basename now a

  arrive-Moves :
      (path basename : Text) (pending : Option PendingRename) (w : Watched H)
      → Agrees w.retry_queue
      → Moves w (arrive H dir now path basename pending w) basename (λ o. some now)
  unfolding arrive
  arrive-Moves path basename none w a = schedule-Agrees w.retry_queue basename now a
  arrive-Moves path basename (some p) w a =
      paired-Moves p.side path basename
        (record w { pending_renames = Dict.remove basename w.pending_renames }) a

  dispatch-Moves :
      (side : OutboxSide) (kind : RawEventKind) (path basename : Text) (w : Watched H)
      → Agrees w.retry_queue
      → Moves w (dispatch H dir now side kind path basename w) basename (due_after now side kind)
  unfolding dispatch
  dispatch-Moves outbox create_or_rename_to path basename w a =
      arrive-Moves path basename (Dict.get basename w.pending_renames) w a
  dispatch-Moves outbox remove path basename w a = remove-Agrees w.retry_queue basename a
  dispatch-Moves outbox rename_from path basename w a = stays w basename a
  dispatch-Moves failed create_or_rename_to path basename w a =
      remove-Agrees w.retry_queue basename a
  dispatch-Moves failed remove path basename w a = stays w basename a
  dispatch-Moves failed rename_from path basename w a = stays w basename a

  -- An event moves the message it is about, and no other: it is due at once when its file comes to
  -- the Outbox, and no longer when its file is removed from the Outbox or comes to Failed; every
  -- other event, and one about a hidden file, leaves the queue, whose two maps agree as before.
  pub handle_event-queue :
      (ev : OutboxEvent) (w : Watched H)
      → Agrees w.retry_queue
      → Agrees (handle_event H dir now ev w).retry_queue
        × ((n : Text)
            → Dict.get n (handle_event H dir now ev w).retry_queue.index ≡ (
                if concerns ev n
                then due_after now ev.side ev.kind (Dict.get n w.retry_queue.index)
                else Dict.get n w.retry_queue.index))
  unfolding handle_event
  handle_event-queue ev w a = elim (Option-cases ev.file_name) [
    | inl e ↦ rw (handle_event, e) (a, λ n. refl)
    | inr (f, e) ↦ elim (Bool-cases (starts_with f (text "."))) [
      | inl h ↦ rw (handle_event, e, h) (a, λ n. refl)
      | inr h ↦ rw (handle_event, e, h) (dispatch-Moves ev.side ev.kind ev.path (strip_flags f) w a)
    ]
  ]
