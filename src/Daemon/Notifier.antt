-- ===== src/Daemon/Notifier.antt =====
-- src/daemon/resilience.rs: `FailureNotifier`. A notification is returned, not sent; the upper case
-- of a character is a parameter, and a name is a list of characters.
use jmapsyncd.Base.{
  ℕ, ◌+◌, Bool, true, false, Option, none, some, List, [], ◌∷◌, ◌++◌, Text, text, ◌==◌, nat_eq,
  if◌then◌else◌,
}
use jmapsyncd.Base.Strings.{before_first, drop}
use jmapsyncd.Daemon.Headers.{find_subseq}

unfoldable pub display_label : (ℕ → Text) → Text → Text
display_label to_uppercase [] = []
display_label to_uppercase (c ∷ cs) = to_uppercase c ++ cs

abbrev pub push_label : Text → List Text → List Text
push_label [] labels = labels
push_label (c ∷ cs) labels = (c ∷ cs) ∷ labels

-- `split('.')` without the empty labels; `current` is the label so far.
unfoldable pub labels_of : Text → Text → List Text
labels_of current [] = push_label current []
labels_of current (c ∷ cs) =
    let closed = labels_of [] cs in
    let longer = labels_of (current ++ (c ∷ [])) cs in
    if c == b'.' then push_label current closed else longer

-- `labels[labels.len() - 2]`, if there are two.
unfoldable pub last_but_one : List Text → Option Text
last_but_one [] = none
last_but_one (a ∷ []) = none
last_but_one (a ∷ b ∷ []) = some a
last_but_one (a ∷ b ∷ c ∷ l) = last_but_one (b ∷ c ∷ l)

unfoldable pub server_label : (ℕ → Text) → Text → Text
server_label to_uppercase jmap_host =
    let rest : Text = elim (find_subseq (text "://") jmap_host) [
      | none ↦ jmap_host
      | some pos ↦ drop (pos + 3) jmap_host
    ] in
    let hostname = before_first (text ":") (before_first (text "/") rest) in
    display_label to_uppercase
      (elim (last_but_one (labels_of [] hostname)) [ none ↦ hostname | some l ↦ l ])

pub record FailureNotifier : Type 0 where
  pub account : Text
  pub server : Text
  pub is_failed : Bool

unfoldable pub new : (ℕ → Text) → Text → Text → FailureNotifier
new to_uppercase account jmap_host = record {
  account = display_label to_uppercase account;
  server = server_label to_uppercase jmap_host;
  is_failed = false;
}

pub data Notification : Type 0 where
  down up : (account : Text) (server : Text) → Notification

unfoldable pub failed : FailureNotifier → Option Notification × FailureNotifier
failed n = elim n.is_failed [
  | true ↦ (none, n)
  | false ↦ (some (down n.account n.server), record n { is_failed = true })
]

unfoldable pub recovered : FailureNotifier → Option Notification × FailureNotifier
recovered n = elim n.is_failed [
  | false ↦ (none, n)
  | true ↦ (some (up n.account n.server), record n { is_failed = false })
]
