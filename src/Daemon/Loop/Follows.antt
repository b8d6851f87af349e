-- ===== src/Daemon/Loop/Follows.antt =====
-- src/daemon/submit.rs: the retry queue in every state of the submission loop.
use jmapsyncd.Base.{
  ℕ, ◌≡◌, ◌⊎◌, true, false, Option, none, some, List, [], ◌∷◌, Text, text_eq, contains,
  if◌then◌else◌,
}
use jmapsyncd.Base.Dict
use jmapsyncd.Config.{SubmitConfig}
use jmapsyncd.Daemon.Deliver.{Mailing}
use jmapsyncd.Daemon.Loop.{Loop, Visit, Label, woken, seen}
use jmapsyncd.Daemon.Outbox.Queue.{due_after, concerns}
use jmapsyncd.Daemon.RetrySchedule.{RetrySchedule}
use jmapsyncd.Daemon.RetrySchedule.Agrees.{Agrees}
use jmapsyncd.Daemon.RetrySchedule.Due.{is_due}
use jmapsyncd.Daemon.Sidecar.{Host}
use jmapsyncd.Daemon.Submission.Context.{SubmitContext}

-- When each message is due, if it is.
abbrev pub Plan : Type 0
Plan = Text → Option ℕ

abbrev pub plan_of : {H : Host} → Loop H → Plan
plan_of l n = Dict.get n l.watched.retry_queue.index

-- What a turn does to the plan. Those that are due at a wake-up leave it or are due again at the
-- instant their attempt ended.
abbrev pub Moves : {H : Host} → Label H → Plan → Plan → Type 0
Moves (woken now visit) p q =
    (n : Text)
    → (is_due now (p n) ≡ false → q n ≡ p n)
      × (is_due now (p n) ≡ true → (q n ≡ none) ⊎ (q n ≡ some (visit n).moment.now))
Moves (seen now ev) p q =
    (n : Text) → q n ≡ (if concerns ev n then due_after now ev.side ev.kind (p n) else p n)

-- What a run of turns does to it.
pub data Follows (H : Host) : List (Label H) → Plan → Plan → Type 0 where
  stay : (p : Plan) → Follows H [] p p
  move :
      (label : Label H) (labels : List (Label H)) (p q r : Plan)
      → Moves label p q
      → Follows H labels q r
      → Follows H (label ∷ labels) p r

module _ (H : Host) (ctx : SubmitContext) (cfg : SubmitConfig) (dir out fail : Text) where
  -- What attempts at the names leave of the queue.
  abbrev Tried : (Text → Visit H) → List Text → Mailing H → Mailing H → Type 0
  Tried visit names w new =
      Agrees new.retry_queue
      × ((n : Text)
          → (Dict.get n new.retry_queue.index ≡ Dict.get n w.retry_queue.index)
            ⊎ ((contains names n ≡ true)
                × (Dict.get n new.retry_queue.index ≡ some (visit n).moment.now)))
