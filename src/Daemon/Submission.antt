-- ===== src/Daemon/Submission.antt =====
-- src/daemon/submit.rs: the decisions of a submission: which failures are retried, whether an
-- envelope can be sent, and what to do about a message that the server already has. The text of
-- reasons is left out; white space is that of ASCII; a time is a number.
pub mod Decisions
pub mod Context
pub mod Attempt
pub mod Responses
pub mod Delivered
pub mod Requests
use jmapsyncd.Base.{
  ℕ, Bool, true, false, ◌||◌, ◌&&◌, Option, none, some, List, [], ◌∷◌, Text, text, ◌==◌, text_eq,
  nat_eq, any, all, contains, if◌then◌else◌, leb, ltb,
}
use jmapsyncd.Base.Strings.{flag_mark, rsplit_once}

-- `jmap_client::Error`, as far as `from_jmap_error` reads it.
pub data MethodErrorType : Type 0 where
  server_unavailable server_fail server_partial_fail other : MethodErrorType

pub data JmapError : Type 0 where
  transport : (status : Option ℕ) → JmapError
  problem : (status : Option ℕ) → JmapError
  server : JmapError
  method : MethodErrorType → JmapError
  set_error : (already_exists : Bool) (existing_id : Option Text) → JmapError
  parse : JmapError
  internal : JmapError
  web_socket : JmapError

pub data SubmitOutcome : Type 0 where
  success transient permanent : SubmitOutcome

unfoldable pub from_method_error : MethodErrorType → SubmitOutcome
from_method_error server_unavailable = transient
from_method_error server_fail = transient
from_method_error server_partial_fail = transient
from_method_error other = permanent

-- `StatusCode::is_client_error`
abbrev pub is_client_error : ℕ → Bool
is_client_error status = leb 400 status && ltb status 500

abbrev pub unwrap_or_0 : Option ℕ → ℕ
unwrap_or_0 none = 0
unwrap_or_0 (some n) = n

unfoldable pub from_jmap_error : JmapError → SubmitOutcome
from_jmap_error (transport none) = transient
from_jmap_error (transport (some status)) =
    if is_client_error status && (if status == 429 then false else true)
    then permanent
    else transient
from_jmap_error (problem o) =
    let status = unwrap_or_0 o in
    if leb 500 status || (status == 429 || status == 408) then transient else permanent
from_jmap_error server = transient
from_jmap_error (method e) = from_method_error e
from_jmap_error (set_error already_exists existing_id) = permanent
from_jmap_error parse = transient
from_jmap_error internal = transient
from_jmap_error web_socket = transient

pub record Envelope : Type 0 where
  pub from : Text
  pub to : List Text

-- `s.trim().is_empty()`
unfoldable pub is_blank : Text → Bool
is_blank s = all (λ c. c == b' ' || (leb 9 c && leb c 13)) s

pub data EnvelopeError : Type 0 where
  missing_from missing_to : EnvelopeError

unfoldable pub envelope_validation_error : Envelope → Option EnvelopeError
envelope_validation_error env =
    if is_blank env.from
    then some missing_from
    else if all is_blank env.to
    then some missing_to
    else none

pub data ReconcileAction : Type 0 where
  already_done : ReconcileAction
  cancel_and_resubmit : (destroy_ids : List Text) (send_at : Option ℕ) → ReconcileAction
  create_submission : (send_at : Option ℕ) → ReconcileAction

abbrev pub resubmit : List Text → Option ℕ → ReconcileAction
resubmit [] send_at = create_submission send_at
resubmit (p ∷ ps) send_at = cancel_and_resubmit (p ∷ ps) send_at

unfoldable pub reconcile_action : List Text → List Text → Text → Option ℕ → ReconcileAction
reconcile_action email_mailbox_ids pending_submission_ids sent_id sidecar_send_at =
    if any (λ m. m == sent_id) email_mailbox_ids
    then already_done
    else resubmit pending_submission_ids sidecar_send_at

-- `SubmitContext::file_target_id`, on the two ids that it reads.
unfoldable pub file_target_id : Option Text → Text → Bool → Text
file_target_id none sent_id has_send_at = sent_id
file_target_id (some scheduled) sent_id has_send_at = if has_send_at then scheduled else sent_id

unfoldable pub strip_flags : Text → Text
strip_flags name = elim (rsplit_once flag_mark name) [ none ↦ name | some (base, _) ↦ base ]
