-- ===== src/Daemon/Submission/Context.antt =====
-- src/daemon/submit.rs: `SubmitContext`, what a submission asks of the server, and its answers. An
-- attempt gets one answer to each kind of request; the answers of `jmap_client` are parameters.
use jmapsyncd.Base.{
  ℕ, Bool, true, false, Option, none, some, List, Text, text, ◌==◌, text_eq, nat_eq, map,
}
use jmapsyncd.Base.Result.{Result, ok, err, ◌>>=◌}
use jmapsyncd.Base.Table.{find}
use jmapsyncd.Config.{SubmitConfig, ScheduledFolder, auto, sent, named}
use jmapsyncd.Daemon.Headers.{ascii_lowercase}
use jmapsyncd.Daemon.Submission.{JmapError, MethodErrorType}
use jmapsyncd.World.{Mailbox, Role, no_role, archive, drafts, important, inbox, junk, trash, other}
use jmapsyncd.World

pub record SubmitContext : Type 0 where
  pub account_id : Text
  pub identity_id : Text
  pub drafts_id : Text
  pub sent_id : Text
  pub scheduled_file_target_id : Option Text

-- `Identity<Get>` by its accessors.
pub record Identity : Type 0 where
  pub email : Option Text
  pub id : Option Text

-- The import of an uploaded blob.
pub record ImportEmail : Type 0 where
  pub account_id : Text
  pub blob_id : Text
  pub mailbox_ids : List Text
  pub keywords : List Text

-- The email of a submission: the one that the same request imports, or one on the server.
pub data EmailRef : Type 0 where
  imported : EmailRef
  stored : Text → EmailRef

-- `EmailSubmission/set`, with the update of the email on success. `hold_until` is the parameter of
-- the sender's address.
pub record SubmissionSet : Type 0 where
  pub destroy : List Text
  pub email_id : EmailRef
  pub identity_id : Text
  pub mail_from : Text
  pub hold_until : Option ℕ
  pub rcpt_to : List Text
  pub send_at : Option ℕ
  pub mailbox_updates : List (Text × Bool)
  pub keyword_updates : List (Text × Bool)

pub data Request : Type 0 where
  upload : Text → Request
  import_and_submit : ImportEmail → SubmissionSet → Request
  fetch_state : Text → Request
  submit : SubmissionSet → Request

-- `unwrap_method_response`, as far as it is read.
pub data MethodResponse : Type 0 where
  error : MethodErrorType → MethodResponse
  import_email :
      (not_created_ids : List Text) (created : Text → Option JmapError) (created_ids : List Text)
      → MethodResponse
  set_submission : (create_errors : Bool) (has_created : Bool) → MethodResponse
  get_email : (mailbox_ids : List (List Text)) → MethodResponse
  query_submission : (ids : List Text) → MethodResponse
  other_response : MethodResponse

pub record Server : Type 0 where
  pub default_account_id : Text
  pub get_identity : Option (List Identity)
  pub get_mailbox : Option (List Mailbox)
  pub upload : Text → Result JmapError Text
  pub send : Request → Result JmapError (List MethodResponse)
  pub parse_from_rfc3339 : Text → Option ℕ

pub data ResolveError : Type 0 where
  identity_get mailbox_get no_identity no_drafts no_sent : ResolveError

-- `a.eq_ignore_ascii_case(b)`
abbrev pub eq_ignore_ascii_case : Text → Text → Bool
eq_ignore_ascii_case a b = map ascii_lowercase a == map ascii_lowercase b

abbrev is_named : Text → Option Text → Bool
is_named target none = false
is_named target (some n) = eq_ignore_ascii_case n target

abbrev id_of_found : Option Mailbox → Option Text
id_of_found none = none
id_of_found (some m) = m.id

unfoldable pub find_mailbox_id_by_name : List Mailbox → Text → Option Text
find_mailbox_id_by_name mailboxes target =
    id_of_found (find (λ (m : Mailbox). is_named target m.name) mailboxes)

abbrev is_drafts : Role → Bool
is_drafts drafts = true
is_drafts _ = false

abbrev is_sent : Role → Bool
is_sent World.sent = true
is_sent _ = false

abbrev id_of_identity : Option Identity → Option Text
id_of_identity none = none
id_of_identity (some i) = i.id

abbrev pub required {ℓ} : {A : Type ℓ} → ResolveError → Option A → Result ResolveError A
required e none = err e
required e (some a) = ok a

-- `scheduled_file_target_id`
unfoldable pub scheduled_target : List Mailbox → ScheduledFolder → Option Text
scheduled_target mailboxes sent = none
scheduled_target mailboxes auto = find_mailbox_id_by_name mailboxes (text "Scheduled")
scheduled_target mailboxes (named name) = find_mailbox_id_by_name mailboxes name

module _ (S : Server) where
  -- `identity_id`
  unfoldable pub resolve_identity : Text → Option Text → Result ResolveError Text
  resolve_identity from_address (some id) = ok id
  resolve_identity from_address none = do
    identities ← required identity_get S.get_identity
    required no_identity
        (id_of_identity (find (λ (i : Identity). is_named from_address i.email) identities))

  unfoldable pub resolve : SubmitConfig → Result ResolveError SubmitContext
  resolve submit_cfg = do
    identity_id ← resolve_identity submit_cfg.from_address submit_cfg.identity_id
    mailboxes ← required mailbox_get S.get_mailbox
    drafts_id ←
        required no_drafts (id_of_found (find (λ (m : Mailbox). is_drafts m.role) mailboxes))
    sent_id ← required no_sent (id_of_found (find (λ (m : Mailbox). is_sent m.role) mailboxes))
    ok (record {
      account_id = S.default_account_id;
      identity_id = identity_id;
      drafts_id = drafts_id;
      sent_id = sent_id;
      scheduled_file_target_id = scheduled_target mailboxes submit_cfg.scheduled_folder;
    })
