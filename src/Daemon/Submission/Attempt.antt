-- ===== src/Daemon/Submission/Attempt.antt =====
-- src/daemon/submit.rs: `submit_one` and the path for a message that the server already has. The
-- requests of an attempt are returned beside its outcome, in order.
use jmapsyncd.Base.{
  ℕ, Bool, true, false, not, Option, none, some, List, [], ◌∷◌, Text, text, if◌then◌else◌,
}
use jmapsyncd.Base.Result.{Result, ok, err}
use jmapsyncd.Daemon.Submission.{
  JmapError, transport, problem, server, method, set_error, parse, internal, web_socket,
  from_jmap_error, from_method_error, SubmitOutcome, success, permanent, Envelope,
  envelope_validation_error, ReconcileAction, already_done, cancel_and_resubmit, create_submission,
  reconcile_action, file_target_id,
}
use jmapsyncd.Daemon.Submission.Context.{
  SubmitContext, EmailRef, imported, stored, SubmissionSet, Request, upload, import_and_submit,
  fetch_state, submit, MethodResponse, error, import_email, set_submission, get_email,
  query_submission, other_response, Server,
}

-- What an attempt reads of the sidecar.
pub record Message : Type 0 where
  pub bytes : Text
  pub envelope : Envelope
  pub send_at : Option Text

abbrev pub is_some : {A : Type 0} → Option A → Bool
is_some none = false
is_some (some a) = true

-- The submission of an email; `build_mail_from` gives the sender the same time.
unfoldable pub submission :
    SubmitContext → Envelope → List Text → EmailRef → Option ℕ → SubmissionSet
submission ctx env destroy_ids email_id send_at = record {
  destroy = destroy_ids;
  email_id = email_id;
  identity_id = ctx.identity_id;
  mail_from = env.from;
  hold_until = send_at;
  rcpt_to = env.to;
  send_at = send_at;
  mailbox_updates =
      (ctx.drafts_id, false)
      ∷ (file_target_id ctx.scheduled_file_target_id ctx.sent_id (is_some send_at), true)
      ∷ [];
  keyword_updates = (text "$draft", false) ∷ (text "$seen", true) ∷ [];
}

unfoldable pub already_exists_id_from : JmapError → Option Text
already_exists_id_from (set_error true existing_id) = existing_id
already_exists_id_from (set_error false existing_id) = none
already_exists_id_from (transport status) = none
already_exists_id_from (problem status) = none
already_exists_id_from server = none
already_exists_id_from (method e) = none
already_exists_id_from parse = none
already_exists_id_from internal = none
already_exists_id_from web_socket = none

-- What a failed import comes to: the id of the existing email, or the end of the attempt.
unfoldable pub import_failed : Option JmapError → Result SubmitOutcome (Option Text)
import_failed none = err permanent
import_failed (some e) = elim (already_exists_id_from e) [
  | none ↦ err permanent
  | some id ↦ ok (some id)
]

unfoldable pub import_answer :
    Option Text
    → List Text
    → (Text → Option JmapError)
    → List Text
    → Result SubmitOutcome (Option Text)
import_answer existing (first ∷ not_created) created created_ids = import_failed (created first)
import_answer existing [] created [] = err permanent
import_answer existing [] created (c ∷ cs) = ok existing

abbrev pub submission_answer :
    Bool
    → Bool
    → SubmitOutcome
    → Result SubmitOutcome (Option Text)
    → Result SubmitOutcome (Option Text)
submission_answer create_errors has_created failed go_on =
    if create_errors then err failed else if not has_created then err failed else go_on

-- One method response of the first request, by the id of an existing email seen so far.
unfoldable pub response : Option Text → MethodResponse → Result SubmitOutcome (Option Text)
response (some id) (error e) = ok (some id)
response none (error e) = err (from_method_error e)
response existing (import_email not_created created created_ids) =
    import_answer existing not_created created created_ids
response (some id) (set_submission create_errors has_created) = ok (some id)
response none (set_submission create_errors has_created) =
    submission_answer create_errors has_created permanent (ok none)
response existing (get_email mailbox_ids) = ok existing
response existing (query_submission ids) = ok existing
response existing other_response = ok existing

unfoldable pub responses : Option Text → List MethodResponse → Result SubmitOutcome (Option Text)
responses existing [] = ok existing
responses existing (r ∷ rs) = elim (response existing r) [
  | err o ↦ err o
  | ok existing' ↦ responses existing' rs
]

-- The responses to the request for the state of the email: its mailboxes and pending submissions.
unfoldable pub state_responses :
    List Text → List Text → List MethodResponse → Result SubmitOutcome (List Text × List Text)
state_responses mailbox_ids pending [] = ok (mailbox_ids, pending)
state_responses mailbox_ids pending (error e ∷ rs) = err (from_method_error e)
state_responses mailbox_ids pending (get_email [] ∷ rs) = state_responses mailbox_ids pending rs
state_responses mailbox_ids pending (get_email (m ∷ ms) ∷ rs) = state_responses m pending rs
state_responses mailbox_ids pending (query_submission ids ∷ rs) = state_responses mailbox_ids ids rs
state_responses mailbox_ids pending (import_email a b c ∷ rs) =
    state_responses mailbox_ids pending rs
state_responses mailbox_ids pending (set_submission a b ∷ rs) =
    state_responses mailbox_ids pending rs
state_responses mailbox_ids pending (other_response ∷ rs) = state_responses mailbox_ids pending rs

-- The responses to the submission of an email on the server.
unfoldable pub submission_responses : List MethodResponse → SubmitOutcome
submission_responses [] = success
submission_responses (error e ∷ rs) = from_method_error e
submission_responses (set_submission create_errors has_created ∷ rs) =
    let rest = submission_responses rs in
    if create_errors then permanent else if not has_created then permanent else rest
submission_responses (import_email a b c ∷ rs) = submission_responses rs
submission_responses (get_email a ∷ rs) = submission_responses rs
submission_responses (query_submission a ∷ rs) = submission_responses rs
submission_responses (other_response ∷ rs) = submission_responses rs

abbrev pub Attempt : Type 0
Attempt = SubmitOutcome × List Request

-- A request, and what is done with its answer.
abbrev pub after {ℓ} : {A : Type ℓ} → Request → Result JmapError A → (A → Attempt) → Attempt
after r (err e) f = (from_jmap_error e, r ∷ [])
after r (ok a) f = ((f a).0, r ∷ (f a).1)

module _ (S : Server) (ctx : SubmitContext) where
  unfoldable pub execute_reconciled_submission : Envelope → Text → Option ℕ → List Text → Attempt
  execute_reconciled_submission env email_id send_at destroy_ids =
      let r = submit (submission ctx env destroy_ids (stored email_id) send_at) in
      after r (S.send r) λ rs. (submission_responses rs, [])

  unfoldable pub reconciled : Envelope → Text → ReconcileAction → Attempt
  reconciled env email_id already_done = (success, [])
  reconciled env email_id (cancel_and_resubmit destroy_ids send_at) =
      execute_reconciled_submission env email_id send_at destroy_ids
  reconciled env email_id (create_submission send_at) =
      execute_reconciled_submission env email_id send_at []

  unfoldable pub state_fetched :
      Envelope → Text → Option ℕ → Result SubmitOutcome (List Text × List Text) → Attempt
  state_fetched env email_id send_at (err o) = (o, [])
  state_fetched env email_id send_at (ok (mailbox_ids, pending)) =
      reconciled env email_id (reconcile_action mailbox_ids pending ctx.sent_id send_at)

  unfoldable pub reconcile_after_import : Envelope → Text → Option ℕ → Attempt
  reconcile_after_import env email_id send_at =
      after (fetch_state email_id) (S.send (fetch_state email_id))
        λ rs. state_fetched env email_id send_at (state_responses [] [] rs)

  -- After the loop over the responses.
  unfoldable pub import_done : Envelope → Option ℕ → Result SubmitOutcome (Option Text) → Attempt
  import_done env send_at (err o) = (o, [])
  import_done env send_at (ok none) = (success, [])
  import_done env send_at (ok (some id)) = reconcile_after_import env id send_at

  unfoldable pub import_request : Envelope → Text → Option ℕ → Request
  import_request env blob_id send_at =
      import_and_submit
        (record {
          account_id = ctx.account_id;
          blob_id = blob_id;
          mailbox_ids = ctx.drafts_id ∷ [];
          keywords = text "$draft" ∷ [];
        })
        (submission ctx env [] imported send_at)

  unfoldable pub send_message : Text → Envelope → Option ℕ → Attempt
  send_message bytes env send_at = after (upload bytes) (S.upload bytes) λ blob_id.
      let r = import_request env blob_id send_at in
      after r (S.send r) λ rs. import_done env send_at (responses none rs)

  -- `send_at_dt`
  unfoldable pub send_time : Option Text → Option (Option ℕ)
  send_time none = some none
  send_time (some s) = elim (S.parse_from_rfc3339 s) [ none ↦ none | some t ↦ some (some t) ]

  unfoldable pub submit_one : Message → Attempt
  submit_one m = elim (envelope_validation_error m.envelope) [
    | some reason ↦ (permanent, [])
    | none ↦ elim (send_time m.send_at) [
      | none ↦ (permanent, [])
      | some send_at ↦ send_message m.bytes m.envelope send_at
    ]
  ]
