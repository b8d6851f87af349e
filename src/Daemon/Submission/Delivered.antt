-- ===== src/Daemon/Submission/Delivered.antt =====
-- src/daemon/submit.rs: when `submit_one` reports success, and what it asks of the server.
use jmapsyncd.Base.{ℕ, ◌≡◌, true, Option, List, [], Text, ◌==◌, text_eq, any, all, ◌||◌, Bool}
use jmapsyncd.Base.Result.{Result, ok}
use jmapsyncd.Daemon.Submission.{Envelope}
use jmapsyncd.Daemon.Submission.Context.{
  SubmitContext, Request, ImportEmail, SubmissionSet, import_and_submit, fetch_state, submit,
  stored, MethodResponse, Server,
}
use jmapsyncd.Daemon.Submission.Attempt.{submission, state_responses, import_request}
use jmapsyncd.Daemon.Submission.Responses.{
  accepted, submission_accepted, is_error, is_submission, is_import,
}

module _ (S : Server) (ctx : SubmitContext) where
  -- The server has the message and lists it in Sent.
  pub record AlreadySent (id : Text) : Type 0 where
    pub answers : List MethodResponse
    pub mailbox_ids : List Text
    pub pending : List Text
    pub fetched : S.send (fetch_state id) ≡ ok answers
    pub state : state_responses [] [] answers ≡ ok (mailbox_ids, pending)
    pub in_sent : any (λ m. m == ctx.sent_id) mailbox_ids ≡ true

  -- A request whose responses are good, one to its submission among them.
  pub record Accepted (good : MethodResponse → Bool) (r : Request) : Type 0 where
    pub answers : List MethodResponse
    pub answered : S.send r ≡ ok answers
    pub all_accepted : all good answers ≡ true
    pub submitted : any is_submission answers ≡ true

  -- How a message can have been delivered.
  pub data Delivered (env : Envelope) (send_at : Option ℕ) : Type 0 where
    by_import :
        (blob_id : Text) (a : Accepted accepted (import_request S ctx env blob_id send_at))
        → any is_import a.answers ≡ true
        → Delivered env send_at
    by_submission :
        (id : Text) (destroy_ids : List Text)
        → Accepted submission_accepted (submit (submission ctx env destroy_ids (stored id) send_at))
        → Delivered env send_at
    before : (id : Text) → AlreadySent id → Delivered env send_at

-- What the protocol says of a server: each method call of a request is answered, by its result or
-- by an error.
pub record AnswersCalls (S : Server) : Type 0 where
  pub import_answered :
      (i : ImportEmail) (s : SubmissionSet) (rs : List MethodResponse)
      → S.send (import_and_submit i s) ≡ ok rs
      → any (λ r. is_import r || is_error r) rs ≡ true
  pub import_submitted :
      (i : ImportEmail) (s : SubmissionSet) (rs : List MethodResponse)
      → S.send (import_and_submit i s) ≡ ok rs
      → any (λ r. is_submission r || is_error r) rs ≡ true
  pub submitted :
      (s : SubmissionSet) (rs : List MethodResponse)
      → S.send (submit s) ≡ ok rs
      → any (λ r. is_submission r || is_error r) rs ≡ true
