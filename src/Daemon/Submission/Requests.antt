-- ===== src/Daemon/Submission/Requests.antt =====
-- src/daemon/submit.rs: the requests of an attempt.
use jmapsyncd.Base.{
  ℕ, ◌≡◌, refl, ap, inl, inr, Option, List, [], ◌∷◌, Text, ◌==◌, text_eq, any, if◌then◌else◌,
  Bool-cases,
}
use jmapsyncd.Base.Result.{Result, ok, err}
use jmapsyncd.Daemon.Submission.{JmapError, Envelope, reconcile_action, resubmit}
use jmapsyncd.Daemon.Submission.Context.{
  SubmitContext, Request, fetch_state, submit, stored, MethodResponse, Server,
}
use jmapsyncd.Daemon.Submission.Attempt.{
  Attempt, submission, state_responses, after, execute_reconciled_submission, reconciled,
  state_fetched, reconcile_after_import,
}

module _ (S : Server) (ctx : SubmitContext) where
  after_alone :
      {A : Type 0} (r : Request) (a : Result JmapError A) (f : A → Attempt)
      → ((x : A) → (f x).1 ≡ [])
      → (after r a f).1 ≡ r ∷ []
  after_alone r (err e) f h = refl
  after_alone r (ok x) f h = ap (λ l. r ∷ l) (h x)

  execute_reconciled_submission-requests :
      (env : Envelope) (id : Text) (send_at : Option ℕ) (p : List Text)
      → (execute_reconciled_submission S ctx env id send_at p).1
        ≡ submit (submission ctx env p (stored id) send_at) ∷ []
  unfolding execute_reconciled_submission
  execute_reconciled_submission-requests env id send_at p =
      let r = submit (submission ctx env p (stored id) send_at) in
      after_alone r (S.send r) _ (λ rs. refl)

  reconciled-requests :
      (env : Envelope) (id : Text) (send_at : Option ℕ) (p : List Text)
      → (reconciled S ctx env id (resubmit p send_at)).1
        ≡ submit (submission ctx env p (stored id) send_at) ∷ []
  unfolding reconciled
  reconciled-requests env id send_at [] = execute_reconciled_submission-requests env id send_at []
  reconciled-requests env id send_at (p ∷ ps) =
      execute_reconciled_submission-requests env id send_at (p ∷ ps)

  -- When the server has the message and answers the question about its state, the attempt makes no
  -- further request if the message is in Sent; otherwise it makes one, which destroys exactly the
  -- pending submissions and submits the copy on the server.
  pub reconcile_after_import-requests :
      (env : Envelope) (id : Text) (send_at : Option ℕ) (rs : List MethodResponse)
      (boxes pending : List Text)
      → S.send (fetch_state id) ≡ ok rs
      → state_responses [] [] rs ≡ ok (boxes, pending)
      → (reconcile_after_import S ctx env id send_at).1
        ≡ fetch_state id
          ∷ (if any (λ m. m == ctx.sent_id) boxes
              then []
              else submit (submission ctx env pending (stored id) send_at) ∷ [])
  unfolding reconcile_after_import state_fetched reconcile_action reconciled
  reconcile_after_import-requests env id send_at rs boxes pending a e =
      elim (Bool-cases (any (λ m. m == ctx.sent_id) boxes)) [
        | inl i ↦ rw (a, e, i) refl
        | inr i ↦
            rw (a, e, i) (ap (λ l. fetch_state id ∷ l) (reconciled-requests env id send_at pending))
      ]
