-- ===== src/Queue.antt =====
-- src/bin/jmapqueue.rs: the command line tool that puts a message into the Outbox. The headers are
-- those that `mailparse` finds, by key and value; the bytes of a header's value, the clock, the
-- host's name and `chrono` are arguments.
pub mod Stripped
use jmapsyncd.Base.{
  ℕ, zero, suc, ◌+◌, Bool, true, false, not, ◌&&◌, ◌||◌, Option, none, some, List, [], ◌∷◌, ◌++◌,
  Text, text, ◌==◌, text_eq, nat_eq, all, starts_with, length, if◌then◌else◌, ltb, leb,
}
use jmapsyncd.Base.Result.{Result, ok, err, ◌>>=◌}
use jmapsyncd.Base.Strings.{drop, take, split_once, rsplit_once}
use jmapsyncd.Base.Table.{find}
use jmapsyncd.Config.{Account, SubmitConfig, MailConfig}
use jmapsyncd.Daemon.Headers.{
  ascii_lowercase, find_subseq, crlf, find_line_end, starts_with_folded_continuation,
}
use jmapsyncd.Daemon.Sidecar.{Host, join, and_then, sidecar_path}
use jmapsyncd.Daemon.Submission.{Envelope}
use jmapsyncd.Daemon.Submission.Context.{eq_ignore_ascii_case}

-- What the tool writes of a sidecar: its own `RetryState` and `Sidecar`.
pub record RetryState : Type 0 where
  pub attempts : ℕ
  pub next_at : Option Text

pub record Sidecar : Type 0 where
  pub envelope : Envelope
  pub send_at : Option Text
  pub submitted_at : Text
  pub account : Text
  pub retry : RetryState

pub data QueueError : Type 0 where
  no_recipient empty_message no_from no_account no_submit no_mail bad_send_at writing : QueueError

abbrev is_space : ℕ → Bool
is_space c = c == b' ' || (leb 9 c && leb c 13)

unfoldable pub trim_start : Text → Text
trim_start [] = []
trim_start (c ∷ cs) = let rest = trim_start cs in if is_space c then rest else c ∷ cs

-- White space at the end goes.
unfoldable pub trim_end : Text → Text
trim_end [] = []
trim_end (c ∷ cs) = let rest = trim_end cs in if is_space c && rest == [] then [] else c ∷ rest

abbrev pub trim : Text → Text
trim s = trim_end (trim_start s)

abbrev before_last_gt : Option (Text × Text) → Option Text
before_last_gt none = none
before_last_gt (some (address, _)) = some address

-- The first `<` stands before the last `>`.
unfoldable pub bracketed : Text → Option Text
bracketed header_value = elim (split_once b'<' header_value) [
  | none ↦ none
  | some (_, rest) ↦ before_last_gt (rsplit_once (b'>' ∷ []) rest)
]

unfoldable pub bare_address : Text → Text
bare_address header_value = elim (bracketed header_value) [
  | some address ↦ trim address
  | none ↦ trim header_value
]

abbrev pub Headers : Type 0
Headers = List (Text × Text)

abbrev header : Text → Headers → Option (Text × Text)
header key = find λ (h : Text × Text). eq_ignore_ascii_case h.0 key

-- The address of `From:` and the value of `X-JMAP-Send-At:`.
unfoldable pub extract_headers : Headers → Option Text × Option Text
extract_headers hs = (
  elim (header (text "from") hs) [ none ↦ none | some h ↦ some (bare_address h.1) ],
  elim (header (text "x-jmap-send-at") hs) [ none ↦ none | some h ↦ some (trim h.1) ],
)

abbrev routes : Text → Option SubmitConfig → Bool
routes from none = false
routes from (some s) = eq_ignore_ascii_case s.from_address from

abbrev pub required {ℓ} : {A : Type ℓ} → QueueError → Option A → Result QueueError A
required e none = err e
required e (some a) = ok a

unfoldable pub pick_account : List Account → Option Text → Text → Result QueueError Account
pick_account accounts (some name) from =
    required no_account (find (λ (a : Account). a.name == name) accounts)
pick_account accounts none from =
    required no_account (find (λ (a : Account). routes from a.submit) accounts)

-- `is_rfc3339` is the parser of `chrono`.
unfoldable pub normalize_send_at : (Text → Bool) → Text → Result QueueError (Option Text)
normalize_send_at is_rfc3339 v =
    let trimmed = trim v in
    if trimmed == [] || eq_ignore_ascii_case trimmed (text "send-now")
    then ok none
    else if is_rfc3339 trimmed
    then ok (some trimmed)
    else err bad_send_at

-- The separator stays with the body.
unfoldable pub split_header_body : Text → Text × Text
split_header_body raw = elim (find_subseq (crlf ++ crlf) raw) [
  | some pos ↦ (take pos raw, drop pos raw)
  | none ↦ elim (find_subseq (10 ∷ 10 ∷ []) raw) [
    | some pos ↦ (take pos raw, drop pos raw)
    | none ↦ (raw, [])
  ]
]

unfoldable pub same_lowercase : Text → Text → Bool
same_lowercase [] [] = true
same_lowercase [] (n ∷ ns) = false
same_lowercase (h ∷ hs) [] = false
same_lowercase (h ∷ hs) (n ∷ ns) = ascii_lowercase h == n && same_lowercase hs ns

unfoldable pub line_starts_with_header : Text → Text → Bool
line_starts_with_header line name_lc = elim (split_once b':' line) [
  | none ↦ false
  | some (hdr, _) ↦ same_lowercase hdr name_lc
]

-- The loop over the lines; each has at least one byte, of which the fuel has one.
unfoldable pub strip_lines : ℕ → Text → Bool → Text → Text
unfolding find_line_end
strip_lines zero name_lc skip headers = []
strip_lines (suc fuel) name_lc skip [] = []
strip_lines (suc fuel) name_lc skip (b ∷ bs) =
    let line = take (find_line_end (b ∷ bs)) (b ∷ bs) in
    let skip' =
      if starts_with_folded_continuation line then skip else line_starts_with_header line name_lc in
    let rest = strip_lines fuel name_lc skip' (drop (find_line_end (b ∷ bs)) (b ∷ bs)) in
    if skip' then rest else line ++ rest

unfoldable pub strip_header_case_insensitive : Text → Text → Text
strip_header_case_insensitive raw name_lc =
    let (headers, body) = split_header_body raw in
    strip_lines (length headers) name_lc false headers ++ body

-- The command line and what the tool finds: the message, its headers, and the name of the new file.
pub record Args : Type 0 where
  pub recipients : List Text
  pub from : Option Text
  pub account : Option Text
  pub send_at : Option Text

-- What is written where.
pub record Queued : Type 0 where
  pub outbox : Text
  pub outbound : Text
  pub account_name : Text
  pub sidecar : Sidecar

abbrev either_of {ℓ} : {A : Type ℓ} → Option A → Option A → Option A
either_of none b = b
either_of (some a) b = some a

unfoldable pub resolve_send_at :
    (Text → Bool) → Option Text → Option Text → Result QueueError (Option Text)
resolve_send_at is_rfc3339 (some cli) hdr = normalize_send_at is_rfc3339 cli
resolve_send_at is_rfc3339 none (some hdr) = normalize_send_at is_rfc3339 hdr
resolve_send_at is_rfc3339 none none = ok none

abbrev non_empty {ℓ} : {A : Type ℓ} → QueueError → List A → Result QueueError (List A)
non_empty e [] = err e
non_empty e (x ∷ xs) = ok (x ∷ xs)

-- `run` up to the first write.
unfoldable pub prepare :
    (Text → Bool) → Args → Text → Headers → List Account → Text → Result QueueError Queued
prepare is_rfc3339 args message headers accounts iso_now = do
  recipients ← non_empty no_recipient args.recipients
  raw ← non_empty empty_message message
  from ← required no_from (either_of args.from (extract_headers headers).0)
  account ← pick_account accounts args.account from
  submit_cfg ← required no_submit account.submit
  mail ← required no_mail account.mail
  send_at ← resolve_send_at is_rfc3339 args.send_at (extract_headers headers).1
  ok (record {
    outbox = join mail.path (text "Outbox");
    outbound = strip_header_case_insensitive raw (text "x-jmap-send-at");
    account_name = account.name;
    sidecar = record {
      envelope = record { from = from; to = recipients };
      send_at = send_at;
      submitted_at = iso_now;
      account = account.name;
      retry = record { attempts = 0; next_at = none };
    };
  })

-- `to_vec_pretty` is that of `serde_json` for the sidecar of this tool.
module _ (H : Host) (to_vec_pretty : Sidecar → Option Text) where
  unfoldable pub create_maildir : Text → H.State → Bool × H.State
  create_maildir root =
      and_then H (λ d. H.create_dir_all d (join root (text "tmp")))
        (and_then H (λ d. H.create_dir_all d (join root (text "new")))
          (λ d. H.create_dir_all d (join root (text "cur"))))

  unfoldable pub atomic_write_new : Text → Text → Text → H.State → Bool × H.State
  atomic_write_new outbox filename bytes =
      and_then H (λ d. H.write d (join (join outbox (text "tmp")) filename) bytes)
        (λ d.
          H.rename d (join (join outbox (text "tmp")) filename)
            (join (join outbox (text "new")) filename))

  -- The message, which the daemon sees from here on.
  unfoldable pub write_message : Queued → Text → H.State → Bool × H.State
  write_message q filename =
      and_then H (create_maildir q.outbox) (atomic_write_new q.outbox filename q.outbound)

  unfoldable pub write_sidecar : Queued → Text → Text → H.State → Bool × H.State
  write_sidecar q sidecar_dir filename =
      and_then H (λ d. H.create_dir_all d sidecar_dir)
        λ d. elim (to_vec_pretty q.sidecar) [
          | none ↦ (false, d)
          | some bytes ↦ H.write d (sidecar_path sidecar_dir filename) bytes
        ]

  -- The rest of `run`.
  unfoldable pub enqueue : Queued → Text → Text → H.State → Bool × H.State
  enqueue q sidecar_dir filename =
      and_then H (write_message q filename) (write_sidecar q sidecar_dir filename)
