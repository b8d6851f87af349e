-- ===== src/Daemon/Submission/Decisions.antt =====
-- src/daemon/submit.rs: what the decisions of a submission come to.
use jmapsyncd.Base.{
  ℕ, ◌≡◌, refl, arith, Bool, true, false, not, ◌&&◌, Option, none, some, List, [], ◌∷◌, Text, ◌==◌,
  text_eq, any, all, if◌then◌else◌,
}
use jmapsyncd.Daemon.Submission.{
  Envelope, is_blank, envelope_validation_error, ReconcileAction, already_done, cancel_and_resubmit,
  create_submission, reconcile_action,
}

-- The submissions that an action cancels.
abbrev pub cancelled : ReconcileAction → List Text
cancelled already_done = []
cancelled (cancel_and_resubmit ids send_at) = ids
cancelled (create_submission send_at) = []

-- The time of the submission that an action creates, if it creates one.
abbrev pub created : ReconcileAction → Option (Option ℕ)
created already_done = none
created (cancel_and_resubmit ids send_at) = some send_at
created (create_submission send_at) = some send_at

-- A message that is in the Sent mailbox is not submitted again, and none of its submissions is
-- cancelled; any other message is submitted once, at the time of the sidecar, and exactly its
-- pending submissions are cancelled before.
pub reconcile_action_lem :
    (mailboxes pending : List Text) (sent : Text) (send_at : Option ℕ)
    → (created (reconcile_action mailboxes pending sent send_at)
        ≡ (if any (λ m. m == sent) mailboxes then none else some send_at))
      × (cancelled (reconcile_action mailboxes pending sent send_at)
          ≡ (if any (λ m. m == sent) mailboxes then [] else pending))
unfolding reconcile_action
reconcile_action_lem mailboxes [] sent send_at = (ground arith, ground arith)
reconcile_action_lem mailboxes (p ∷ ps) sent send_at = (ground arith, ground arith)

all-any : (ts : List Text) → not (all is_blank ts) ≡ any (λ t. not (is_blank t)) ts
unfolding all any
all-any [] = refl
all-any (t ∷ ts) = ground (arith, all-any ts)

abbrev pub is_none : {A : Type 0} → Option A → Bool
is_none none = true
is_none (some a) = false

-- An envelope passes exactly when its sender and at least one recipient are more than white space.
pub envelope_validation_error_lem :
    (env : Envelope)
    → is_none (envelope_validation_error env)
      ≡ (not (is_blank env.from) && any (λ t. not (is_blank t)) env.to)
unfolding envelope_validation_error
envelope_validation_error_lem env = ground (arith, all-any env.to)
