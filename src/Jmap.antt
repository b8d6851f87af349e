-- ===== src/Jmap.antt =====
-- src/jmap/mod.rs: what the client is built from: the token, the address and the host that may
-- redirect, and the capabilities of a request. The file system and the shell are parameters.
use jmapsyncd.Base.{
  ◌||◌, Option, none, some, List, [], ◌∷◌, ◌++◌, Text, text, ◌==◌, nat_eq, ◌+◌, starts_with,
  if◌then◌else◌,
}
use jmapsyncd.Base.Result.{Result, ok, err, ◌>>=◌}
use jmapsyncd.Base.Strings.{drop}
use jmapsyncd.Config.{Account, TokenSource, inline, file, cmd}
use jmapsyncd.Daemon.Headers.{find_subseq}

pub data Uri : Type 0 where
  core mail submission other_uri : Uri

-- `clear` and three `push`.
unfoldable pub apply_using_restriction : List Uri → List Uri
apply_using_restriction using = core ∷ mail ∷ submission ∷ []

pub data ClientError : Type 0 where
  token_file token_cmd no_host connecting : ClientError

-- The standard output of a command that succeeds, and the content of a file.
pub record Shell : Type 0 where
  pub read_to_string : Text → Option Text
  pub output : Text → Option Text

abbrev pub or_error {ℓ} : {A : Type ℓ} → ClientError → Option A → Result ClientError A
or_error e none = err e
or_error e (some a) = ok a

-- `trim_end_matches(['\n', '\r'])`
unfoldable pub trim_line_end : Text → Text
trim_line_end [] = []
trim_line_end (c ∷ cs) = elim (trim_line_end cs) [
  | [] ↦ if c == 10 || c == 13 then [] else c ∷ []
  | d ∷ ds ↦ c ∷ d ∷ ds
]

unfoldable pub resolve_token : Shell → TokenSource → Result ClientError Text
resolve_token sh (inline jmap_token) = ok jmap_token
resolve_token sh (file jmap_token_file) = do
  raw ← or_error token_file (sh.read_to_string jmap_token_file)
  ok (trim_line_end raw)
resolve_token sh (cmd jmap_token_cmd) = do
  raw ← or_error token_cmd (sh.output jmap_token_cmd)
  ok (trim_line_end raw)

-- `split(['/', ':']).next()`
unfoldable pub host_part : Text → Text
host_part [] = []
host_part (c ∷ cs) = let rest = host_part cs in if c == b'/' || c == b':' then [] else c ∷ rest

abbrev pub non_empty : Text → Result ClientError Text
non_empty [] = err no_host
non_empty (c ∷ cs) = ok (c ∷ cs)

unfoldable pub extract_host : Text → Result ClientError Text
extract_host url =
    non_empty (
      host_part
        (elim (find_subseq (text "://") url) [ none ↦ url | some pos ↦ drop (pos + 3) url ]))

unfoldable pub url_of : Text → Text
url_of jmap_host =
    if starts_with jmap_host (text "http://") || starts_with jmap_host (text "https://")
    then jmap_host
    else text "https://" ++ jmap_host

-- What the builder of the client gets.
pub record ClientSettings : Type 0 where
  pub bearer : Text
  pub trusted_host : Text
  pub url : Text

unfoldable pub client_from_account : Shell → Account → Result ClientError ClientSettings
client_from_account sh acct = do
  token ← resolve_token sh acct.token
  let url = url_of acct.jmap_host
  trusted_host ← extract_host url
  ok (record { bearer = token; trusted_host = trusted_host; url = url })
