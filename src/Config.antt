-- ===== src/Config.antt =====
-- src/config.rs: the configuration, from what the TOML parser finds under each key. A key that may
-- be left out is an `Option`. `toml`, `shellexpand`, `dirs` and the file are parameters.
pub mod Tables
pub mod Load
use jmapsyncd.Base.{ℕ, Bool, Option, List, Text}

pub data SyncMode : Type 0 where
  mirror two_way : SyncMode

pub data TokenSource : Type 0 where
  inline : (jmap_token : Text) → TokenSource
  file : (jmap_token_file : Text) → TokenSource
  cmd : (jmap_token_cmd : Text) → TokenSource

pub data ScheduledFolder : Type 0 where
  auto sent : ScheduledFolder
  named : Text → ScheduledFolder

pub record BoxMapping : Type 0 where
  pub remote : Text
  pub local : Text

pub record TlsConfig : Type 0 where
  pub ca_file : Option Text
  pub client_cert : Option Text
  pub client_key : Option Text
  pub fingerprint : Option Text

pub record MailConfig : Type 0 where
  pub path : Text
  pub sync_mode : SyncMode
  pub subscribed_only : Bool
  pub box_filter : Option (List Text)
  pub tls : Option TlsConfig
  pub box_mapping : List BoxMapping
  pub post_sync_hook : Option Text
  pub watch_maildir : Bool
  pub exclude_mailboxes : List Text

pub record SubmitConfig : Type 0 where
  pub from_address : Text
  pub identity_id : Option Text
  pub scheduled_folder : ScheduledFolder
  pub retry_base_secs : ℕ
  pub retry_cap_secs : ℕ

pub record Account : Type 0 where
  pub name : Text
  pub enabled : Bool
  pub jmap_host : Text
  pub jmap_user : Text
  pub token : TokenSource
  pub timeout_secs : ℕ
  pub poll_interval_secs : ℕ
  pub mail : Option MailConfig
  pub submit : Option SubmitConfig

pub record ConfigFile : Type 0 where
  pub db_dir : Option Text
  pub accounts : List Account

pub record Overrides : Type 0 where
  pub db_dir : Option Text

pub record Config : Type 0 where
  pub db_dir : Text
  pub accounts : List Account

pub data ConfigError : Type 0 where
  no_config_dir no_data_dir reading parsing expanding : ConfigError
