-- ===== src/Daemon/Submission/Responses.antt =====
-- src/daemon/submit.rs: the responses of an attempt that reports success.
use jmapsyncd.Base.{
  ◌≡◌, ◌≢◌, refl, ap, inl, inr, arith, Bool, true, false, not, Option, none, some, List, [], ◌∷◌,
  Text, text_eq, all, any, ◌&&◌, ◌||◌, Option-cases,
}
use jmapsyncd.Base.Result.{Result, ok, err}
use jmapsyncd.Daemon.Submission.{
  JmapError, transport, problem, server, method, set_error, parse, internal, web_socket,
  MethodErrorType, server_unavailable, server_fail, server_partial_fail, other, from_jmap_error,
  from_method_error, SubmitOutcome, success,
}
use jmapsyncd.Daemon.Submission.Context.{
  Request, MethodResponse, error, import_email, set_submission, get_email, query_submission,
  other_response,
}
use jmapsyncd.Daemon.Submission.Attempt.{
  Attempt, import_failed, import_answer, response, responses, state_responses, submission_responses,
  after, already_exists_id_from,
}

-- Neither an error nor a submission that was not created.
abbrev pub submission_accepted : MethodResponse → Bool
submission_accepted (error e) = false
submission_accepted (set_submission create_errors has_created) = not create_errors && has_created
submission_accepted (import_email not_created created created_ids) = true
submission_accepted (get_email mailbox_ids) = true
submission_accepted (query_submission ids) = true
submission_accepted other_response = true

-- Besides, no import that failed or created nothing.
abbrev pub accepted : MethodResponse → Bool
accepted (error e) = false
accepted (set_submission create_errors has_created) = not create_errors && has_created
accepted (import_email [] created (c ∷ cs)) = true
accepted (import_email [] created []) = false
accepted (import_email (n ∷ ns) created created_ids) = false
accepted (get_email mailbox_ids) = true
accepted (query_submission ids) = true
accepted other_response = true

abbrev pub is_error : MethodResponse → Bool
is_error (error e) = true
is_error _ = false

abbrev pub is_submission : MethodResponse → Bool
is_submission (set_submission create_errors has_created) = true
is_submission _ = false

abbrev pub is_import : MethodResponse → Bool
is_import (import_email not_created created created_ids) = true
is_import _ = false

-- Among responses without an error, what was answered by a result or an error has its result.
pub any-result :
    (kind good : MethodResponse → Bool)
    → ((e : MethodErrorType) → good (error e) ≡ false)
    → (rs : List MethodResponse) → all good rs ≡ true
    → any (λ r. kind r || is_error r) rs ≡ true
    → any kind rs ≡ true
unfolding all any
any-result kind good n [] h k = k
any-result kind good n (error e ∷ rs) h k = ground (arith, n e, h)
any-result kind good n (set_submission a b ∷ rs) h k =
    ground (arith, h, k, any-result kind good n rs)
any-result kind good n (import_email a b c ∷ rs) h k =
    ground (arith, h, k, any-result kind good n rs)
any-result kind good n (get_email a ∷ rs) h k = ground (arith, h, k, any-result kind good n rs)
any-result kind good n (query_submission a ∷ rs) h k =
    ground (arith, h, k, any-result kind good n rs)
any-result kind good n (other_response ∷ rs) h k = ground (arith, h, k, any-result kind good n rs)

pub from_method_error-ne : (e : MethodErrorType) → from_method_error e ≢ success
unfolding from_method_error
from_method_error-ne server_unavailable h = ground (arith, h)
from_method_error-ne server_fail h = ground (arith, h)
from_method_error-ne server_partial_fail h = ground (arith, h)
from_method_error-ne other h = ground (arith, h)

pub from_jmap_error-ne : (e : JmapError) → from_jmap_error e ≢ success
unfolding from_jmap_error
from_jmap_error-ne (transport none) h = ground (arith, h)
from_jmap_error-ne (transport (some status)) h = ground (arith, h)
from_jmap_error-ne (problem status) h = ground (arith, h)
from_jmap_error-ne server h = ground (arith, h)
from_jmap_error-ne (method e) h = from_method_error-ne e h
from_jmap_error-ne (set_error a i) h = ground (arith, h)
from_jmap_error-ne parse h = ground (arith, h)
from_jmap_error-ne internal h = ground (arith, h)
from_jmap_error-ne web_socket h = ground (arith, h)

pub after-success :
    {A : Type 0} (r : Request) (a : Result JmapError A) (f : A → Attempt)
    → (after r a f).0 ≡ success
    → (x : A) × (a ≡ ok x) × ((f x).0 ≡ success)
after-success r (err e) f h = elim (from_jmap_error-ne e h) [ ]
after-success r (ok x) f h = (x, refl, h)

pub submission_responses-accepted :
    (rs : List MethodResponse)
    → submission_responses rs ≡ success
    → all submission_accepted rs ≡ true
unfolding submission_responses all
submission_responses-accepted [] h = refl
submission_responses-accepted (error e ∷ rs) h = elim (from_method_error-ne e h) [ ]
submission_responses-accepted (set_submission true b ∷ rs) h = ground (arith, h)
submission_responses-accepted (set_submission false false ∷ rs) h = ground (arith, h)
submission_responses-accepted (set_submission false true ∷ rs) h =
    submission_responses-accepted rs h
submission_responses-accepted (import_email a b c ∷ rs) h = submission_responses-accepted rs h
submission_responses-accepted (get_email a ∷ rs) h = submission_responses-accepted rs h
submission_responses-accepted (query_submission a ∷ rs) h = submission_responses-accepted rs h
submission_responses-accepted (other_response ∷ rs) h = submission_responses-accepted rs h

abbrev go_on :
    List MethodResponse → Result SubmitOutcome (Option Text) → Result SubmitOutcome (Option Text)
go_on rs r = elim r [ err o ↦ err o | ok existing ↦ responses existing rs ]

-- Once an existing email is known, it stays known.
failed-go_on :
    (rs : List MethodResponse) (e : Option JmapError)
    → ((id : Text) → responses (some id) rs ≢ ok none)
    → go_on rs (import_failed e) ≢ ok none
unfolding import_failed
failed-go_on rs none k h = ground (arith, h)
failed-go_on rs (some e) k h = elim (Option-cases (already_exists_id_from e)) [
  | inl g ↦ ground (arith, rw (go_on, g) at h)
  | inr (id, g) ↦ k id (rw (go_on, g) at h)
]

responses-some : (id : Text) (rs : List MethodResponse) → responses (some id) rs ≢ ok none
unfolding responses response import_answer
responses-some id [] h = ground (arith, h)
responses-some id (error e ∷ rs) h = responses-some id rs h
responses-some id (import_email (n ∷ ns) created cs ∷ rs) h =
    failed-go_on rs (created n) (λ i. responses-some i rs) h
responses-some id (import_email [] created [] ∷ rs) h = ground (arith, h)
responses-some id (import_email [] created (c ∷ cs) ∷ rs) h = responses-some id rs h
responses-some id (set_submission a b ∷ rs) h = responses-some id rs h
responses-some id (get_email a ∷ rs) h = responses-some id rs h
responses-some id (query_submission a ∷ rs) h = responses-some id rs h
responses-some id (other_response ∷ rs) h = responses-some id rs h

pub responses-accepted :
    (rs : List MethodResponse) → responses none rs ≡ ok none → all accepted rs ≡ true
unfolding responses response import_answer all
responses-accepted [] h = refl
responses-accepted (error e ∷ rs) h = ground (arith, h)
responses-accepted (import_email (n ∷ ns) created cs ∷ rs) h =
    elim (failed-go_on rs (created n) (λ i. responses-some i rs) h) [ ]
responses-accepted (import_email [] created [] ∷ rs) h = ground (arith, h)
responses-accepted (import_email [] created (c ∷ cs) ∷ rs) h = responses-accepted rs h
responses-accepted (set_submission true b ∷ rs) h = ground (arith, h)
responses-accepted (set_submission false false ∷ rs) h = ground (arith, h)
responses-accepted (set_submission false true ∷ rs) h = responses-accepted rs h
responses-accepted (get_email a ∷ rs) h = responses-accepted rs h
responses-accepted (query_submission a ∷ rs) h = responses-accepted rs h
responses-accepted (other_response ∷ rs) h = responses-accepted rs h

err-injective : {E A : Type 0} (a b : E) → Path (Result E A) (err a) (err b) → a ≡ b
err-injective a b h = cc

import_failed-ne : (e : Option JmapError) → import_failed e ≢ err success
unfolding import_failed
import_failed-ne none h = ground (arith, h)
import_failed-ne (some e) h = ground (arith, h)

response-ne : (existing : Option Text) (r : MethodResponse) → response existing r ≢ err success
unfolding response import_answer
response-ne none (error e) h =
    from_method_error-ne e (err-injective (from_method_error e) success h)
response-ne (some id) (error e) h = ground (arith, h)
response-ne existing (import_email (n ∷ ns) created cs) h = import_failed-ne (created n) h
response-ne existing (import_email [] created []) h = ground (arith, h)
response-ne existing (import_email [] created (c ∷ cs)) h = ground (arith, h)
response-ne none (set_submission a b) h = ground (arith, h)
response-ne (some id) (set_submission a b) h = ground (arith, h)
response-ne existing (get_email a) h = ground (arith, h)
response-ne existing (query_submission a) h = ground (arith, h)
response-ne existing other_response h = ground (arith, h)

go_on-ne :
    (rs : List MethodResponse) (r : Result SubmitOutcome (Option Text))
    → r ≢ err success
    → ((e : Option Text) → responses e rs ≢ err success)
    → go_on rs r ≢ err success
go_on-ne rs (err o) n k h = n (ap err (err-injective o success h))
go_on-ne rs (ok e) n k h = k e h

pub responses-ne :
    (existing : Option Text) (rs : List MethodResponse) → responses existing rs ≢ err success
unfolding responses
responses-ne existing [] h = ground (arith, h)
responses-ne existing (r ∷ rs) h =
    go_on-ne rs (response existing r) (response-ne existing r) (λ e. responses-ne e rs) h

pub state_responses-ne :
    (a b : List Text) (rs : List MethodResponse) → state_responses a b rs ≢ err success
unfolding state_responses
state_responses-ne a b [] h = ground (arith, h)
state_responses-ne a b (error e ∷ rs) h =
    from_method_error-ne e (err-injective (from_method_error e) success h)
state_responses-ne a b (get_email [] ∷ rs) h = state_responses-ne a b rs h
state_responses-ne a b (get_email (m ∷ ms) ∷ rs) h = state_responses-ne m b rs h
state_responses-ne a b (query_submission ids ∷ rs) h = state_responses-ne a ids rs h
state_responses-ne a b (import_email c d e ∷ rs) h = state_responses-ne a b rs h
state_responses-ne a b (set_submission c d ∷ rs) h = state_responses-ne a b rs h
state_responses-ne a b (other_response ∷ rs) h = state_responses-ne a b rs h
