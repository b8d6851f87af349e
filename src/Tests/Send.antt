-- ===== src/Tests/Send.antt =====
-- The configuration and the Family-2 headers on concrete data.
use jmapsyncd.Base.{◌≡◌, refl, none, some, [], ◌∷◌, ◌++◌, Text, text, text_eq, nat_eq, all}
use jmapsyncd.Base.Result.{ok}
use jmapsyncd.Config
use jmapsyncd.Config.{Config, ConfigFile, Overrides}
use jmapsyncd.Config.Tables.{
  Platform, AccountTable, expand_path, expand_opt_path, tls_of, mail_of, token_of, submit_of,
  account_of, accounts_of, load_file,
}
use jmapsyncd.Config.Load.{load, config_path_of, db_dir_of, post_process}
use jmapsyncd.Daemon.Headers.{strip_family2_headers, inject_family2_headers}
use jmapsyncd.Daemon.Headers.RoundTrip.{strip-inject_family2_headers}
use jmapsyncd.Tests.Mailboxes.{mail, account}

abbrev table : AccountTable
table = record {
  name = text "a";
  enabled = none;
  jmap_host = text "h";
  jmap_user = text "u";
  token = Config.inline (text "t");
  timeout_secs = none;
  poll_interval_secs = none;
  mail = some (record {
    path = text "/mail";
    sync_mode = none;
    subscribed_only = none;
    box_filter = none;
    tls = none;
    box_mapping = none;
    post_sync_hook = none;
    watch_maildir = none;
    exclude_mailboxes = none;
  });
  submit = some (record {
    from_address = text "me@x";
    identity_id = none;
    scheduled_folder = none;
    retry_base_secs = none;
    retry_cap_secs = none;
  });
}

abbrev platform : Platform
platform = record {
  read_to_string = λ p. some [];
  from_str = λ s. some (record { db_dir = none; accounts = table ∷ [] });
  full = λ s. some s;
  config_dir = some (text "/c");
  data_dir = some (text "/d");
}

abbrev loaded : Config
loaded = record {
  db_dir = text "/d/jmapsyncd";
  accounts =
      record account {
        mail = some (record mail { exclude_mailboxes = text "Outbox" ∷ text "Failed" ∷ [] });
        submit = some (record {
          from_address = text "me@x";
          identity_id = none;
          scheduled_folder = Config.auto;
          retry_base_secs = 30;
          retry_cap_secs = 7200;
        });
      }
      ∷ [];
}

load-loaded : load platform none (record { db_dir = none }) ≡ ok loaded
unfolding load config_path_of db_dir_of load_file accounts_of account_of token_of mail_of tls_of
    submit_of expand_path expand_opt_path post_process
load-loaded = refl

abbrev message : Text
message = text "To: a@x" ++ (13 ∷ 10 ∷ 13 ∷ 10 ∷ text "hi")

strip-inject_family2_headers_example :
    strip_family2_headers
      (inject_family2_headers message (text "refused") (text "2026") (text "01J"))
    ≡ strip_family2_headers message
unfolding all nat_eq
strip-inject_family2_headers_example =
    strip-inject_family2_headers message (text "refused") (text "2026") (text "01J") refl refl refl
      refl
