-- ===== src/Config/Tables.antt =====
-- src/config.rs: the deserialization of the file. A key that may be left out is an `Option`, and
-- the defaults are those of the `serde` attributes.
use jmapsyncd.Base.{
  ℕ, Bool, true, Option, none, some, List, [], ◌∷◌, Text, text, ◌==◌, text_eq, if◌then◌else◌,
}
use jmapsyncd.Base.Result.{Result, ok, err, ◌>>=◌}
use jmapsyncd.Config.{
  SyncMode, mirror, TokenSource, inline, file, cmd, ScheduledFolder, auto, sent, named, BoxMapping,
  TlsConfig, MailConfig, SubmitConfig, Account, ConfigFile, ConfigError, reading, parsing,
  expanding,
}

-- The tables of the file.
pub record MailTable : Type 0 where
  pub path : Text
  pub sync_mode : Option SyncMode
  pub subscribed_only : Option Bool
  pub box_filter : Option (List Text)
  pub tls : Option TlsConfig
  pub box_mapping : Option (List BoxMapping)
  pub post_sync_hook : Option Text
  pub watch_maildir : Option Bool
  pub exclude_mailboxes : Option (List Text)

pub record SubmitTable : Type 0 where
  pub from_address : Text
  pub identity_id : Option Text
  pub scheduled_folder : Option Text
  pub retry_base_secs : Option ℕ
  pub retry_cap_secs : Option ℕ

pub record AccountTable : Type 0 where
  pub name : Text
  pub enabled : Option Bool
  pub jmap_host : Text
  pub jmap_user : Text
  pub token : TokenSource
  pub timeout_secs : Option ℕ
  pub poll_interval_secs : Option ℕ
  pub mail : Option MailTable
  pub submit : Option SubmitTable

pub record FileTable : Type 0 where
  pub db_dir : Option Text
  pub accounts : List AccountTable

abbrev pub default_timeout_secs : ℕ
default_timeout_secs = 30

abbrev pub default_poll_interval_secs : ℕ
default_poll_interval_secs = 300

abbrev pub default_retry_base_secs : ℕ
default_retry_base_secs = 30

abbrev pub default_retry_cap_secs : ℕ
default_retry_cap_secs = 7200

abbrev pub or_default {ℓ} : {A : Type ℓ} → A → Option A → A
or_default d none = d
or_default d (some a) = a

-- `ScheduledFolder::deserialize`
unfoldable pub scheduled_folder_of : Text → ScheduledFolder
scheduled_folder_of s =
    if s == text "auto" then auto else if s == text "sent" then sent else named s

abbrev pub scheduled_folder_or_default : Option Text → ScheduledFolder
scheduled_folder_or_default none = auto
scheduled_folder_or_default (some s) = scheduled_folder_of s

unfoldable pub submit_of : SubmitTable → SubmitConfig
submit_of t = record {
  from_address = t.from_address;
  identity_id = t.identity_id;
  scheduled_folder = scheduled_folder_or_default t.scheduled_folder;
  retry_base_secs = or_default default_retry_base_secs t.retry_base_secs;
  retry_cap_secs = or_default default_retry_cap_secs t.retry_cap_secs;
}

-- The file system, `toml::from_str`, `shellexpand::full`, and the directories of the platform.
pub record Platform : Type 0 where
  pub read_to_string : Text → Option Text
  pub from_str : Text → Option FileTable
  pub full : Text → Option Text
  pub config_dir : Option Text
  pub data_dir : Option Text

abbrev pub or_error {ℓ} : {A : Type ℓ} → ConfigError → Option A → Result ConfigError A
or_error e none = err e
or_error e (some a) = ok a

module _ (P : Platform) where
  unfoldable pub expand_path : Text → Result ConfigError Text
  expand_path s = or_error expanding (P.full s)

  unfoldable pub expand_opt_path : Option Text → Result ConfigError (Option Text)
  expand_opt_path none = ok none
  expand_opt_path (some s) = do e ← expand_path s; ok (some e)

  unfoldable pub tls_of : Option TlsConfig → Result ConfigError (Option TlsConfig)
  tls_of none = ok none
  tls_of (some t) = do
    ca_file ← expand_opt_path t.ca_file
    client_cert ← expand_opt_path t.client_cert
    client_key ← expand_opt_path t.client_key
    ok (some (record t { ca_file = ca_file; client_cert = client_cert; client_key = client_key }))

  unfoldable pub mail_of : Option MailTable → Result ConfigError (Option MailConfig)
  mail_of none = ok none
  mail_of (some t) = do
    path ← expand_path t.path
    tls ← tls_of t.tls
    ok (
        some (record {
          path = path;
          sync_mode = or_default mirror t.sync_mode;
          subscribed_only = or_default true t.subscribed_only;
          box_filter = t.box_filter;
          tls = tls;
          box_mapping = or_default [] t.box_mapping;
          post_sync_hook = t.post_sync_hook;
          watch_maildir = or_default true t.watch_maildir;
          exclude_mailboxes = or_default [] t.exclude_mailboxes;
        }))

  unfoldable pub token_of : TokenSource → Result ConfigError TokenSource
  token_of (inline t) = ok (inline t)
  token_of (file p) = do e ← expand_path p; ok (file e)
  token_of (cmd c) = ok (cmd c)

  abbrev pub submit_table : Option SubmitTable → Option SubmitConfig
  submit_table none = none
  submit_table (some t) = some (submit_of t)

  unfoldable pub account_of : AccountTable → Result ConfigError Account
  account_of t = do
    token ← token_of t.token
    mail ← mail_of t.mail
    ok (record {
      name = t.name;
      enabled = or_default true t.enabled;
      jmap_host = t.jmap_host;
      jmap_user = t.jmap_user;
      token = token;
      timeout_secs = or_default default_timeout_secs t.timeout_secs;
      poll_interval_secs = or_default default_poll_interval_secs t.poll_interval_secs;
      mail = mail;
      submit = submit_table t.submit;
    })

  unfoldable pub accounts_of : List AccountTable → Result ConfigError (List Account)
  accounts_of [] = ok []
  accounts_of (t ∷ ts) = do a ← account_of t; rest ← accounts_of ts; ok (a ∷ rest)

  -- `ConfigFile::load`
  unfoldable pub load_file : Text → Result ConfigError ConfigFile
  load_file path = do
    content ← or_error reading (P.read_to_string path)
    table ← or_error parsing (P.from_str content)
    db_dir ← expand_opt_path table.db_dir
    accounts ← accounts_of table.accounts
    ok (record { db_dir = db_dir; accounts = accounts })
