-- ===== src/Config/Load.antt =====
-- src/config.rs: `Config::load`.
use jmapsyncd.Base.{Option, none, some, List, [], ◌∷◌, Text, text, ◌++◌}
use jmapsyncd.Base.Result.{Result, ok, ◌>>=◌}
use jmapsyncd.Config.{
  MailConfig, SubmitConfig, Account, Config, ConfigError, Overrides, no_config_dir, no_data_dir,
}
use jmapsyncd.Config.Tables.{Platform, or_error, load_file}

-- The body of the loop of `Config::load`.
abbrev pub client_only : List Text
client_only = text "Outbox" ∷ text "Failed" ∷ []

abbrev pub default_excludes : List Text → List Text
default_excludes [] = client_only
default_excludes (x ∷ xs) = x ∷ xs

abbrev pub exclude_by_default : Option SubmitConfig → Option MailConfig → Option MailConfig
exclude_by_default none mail = mail
exclude_by_default (some s) none = none
exclude_by_default (some s) (some m) =
    some (record m { exclude_mailboxes = default_excludes m.exclude_mailboxes })

unfoldable pub post_process : List Account → List Account
post_process [] = []
post_process (a ∷ rest) = record a { mail = exclude_by_default a.submit a.mail } ∷ post_process rest

abbrev pub or_else {ℓ} : {A : Type ℓ} → Option A → Option A → Option A
or_else none b = b
or_else (some a) b = some a

module _ (P : Platform) where
  abbrev pub join_path : Text → Text → Text
  join_path dir name = dir ++ (b'/' ∷ name)

  unfoldable pub db_dir_of : Option Text → Result ConfigError Text
  db_dir_of (some d) = ok d
  db_dir_of none = do d ← or_error no_data_dir P.data_dir; ok (join_path d (text "jmapsyncd"))

  unfoldable pub config_path_of : Option Text → Result ConfigError Text
  config_path_of (some p) = ok p
  config_path_of none = do
    d ← or_error no_config_dir P.config_dir
    ok (join_path (join_path d (text "jmapsyncd")) (text "config.toml"))

  unfoldable pub load : Option Text → Overrides → Result ConfigError Config
  load path overrides = do
    config_path ← config_path_of path
    file_config ← load_file P config_path
    db_dir ← db_dir_of (or_else overrides.db_dir file_config.db_dir)
    ok (record { db_dir = db_dir; accounts = post_process file_config.accounts })
