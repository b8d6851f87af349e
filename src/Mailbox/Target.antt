-- ===== src/Mailbox/Target.antt =====
-- src/sync/mailbox.rs: `build_target_set`, the mailboxes of the server that are in scope.
pub mod Terminates
use jmapsyncd.Base.{
  ℕ, suc, Bool, true, false, Option, none, some, List, [], ◌∷◌, map, Text, text, text_eq, length,
  if◌then◌else◌,
}
use jmapsyncd.Base.Dict
use jmapsyncd.Base.Dict.{Dict}
use jmapsyncd.Base.Int.{ℤ, pos}
use jmapsyncd.Base.Result.{Result, ok, err, ◌>>=◌}
use jmapsyncd.Config.{MailConfig, BoxMapping}
use jmapsyncd.Mailbox.Resolve.{or_error, mapped_name, resolve_path}
use jmapsyncd.World.{
  Outside, Mailbox, Error, bad_glob, no_mailbox_name, Role, no_role, archive, drafts, important,
  inbox, junk, sent, trash, other,
}

pub record TargetMailbox : Type 0 where
  pub jmap_id : Text
  pub name : Text
  pub parent_jmap_id : Option Text
  pub role : Option Text
  pub sort_order : Option ℤ
  pub path : Text

unfoldable pub role_to_str : Role → Option Text
role_to_str no_role = none
role_to_str archive = some (text "archive")
role_to_str drafts = some (text "drafts")
role_to_str important = some (text "important")
role_to_str inbox = some (text "inbox")
role_to_str junk = some (text "junk")
role_to_str sent = some (text "sent")
role_to_str trash = some (text "trash")
role_to_str (other s) = some s

-- `by_jmap_id`: a later mailbox replaces an earlier one of the same id.
unfoldable pub index_mailboxes : List Mailbox → Dict Text Mailbox → Dict Text Mailbox
index_mailboxes [] d = d
index_mailboxes (m ∷ ms) d =
    index_mailboxes ms (elim m.id [ none ↦ d | some id ↦ Dict.insert id m d ])

unfoldable pub name_mapping : List BoxMapping → Dict Text Text → Dict Text Text
name_mapping [] d = d
name_mapping (b ∷ bs) d = name_mapping bs (Dict.insert b.remote b.local d)

module _ (O : Outside) (mail_cfg : MailConfig) where
  -- `filter_globs`
  unfoldable pub filter_globs : Result Error (Option (Text → Bool))
  filter_globs = elim mail_cfg.box_filter [
    | none ↦ ok none
    | some globs ↦ do gs ← or_error bad_glob (O.glob_set globs); ok (some gs)
  ]

  -- `keep`
  abbrev pub in_scope : Option (Text → Bool) → Mailbox → Text → Bool
  in_scope (some is_match) mailbox path = is_match path
  in_scope none mailbox path = if mail_cfg.subscribed_only then mailbox.is_subscribed else true

  -- What is inserted for a mailbox that is kept.
  abbrev pub target_of : Dict Text Text → Text → Text → Text → Mailbox → TargetMailbox
  target_of name_map jmap_id name path mailbox = record {
    jmap_id = jmap_id;
    name = mapped_name name_map name;
    parent_jmap_id = mailbox.parent_id;
    role = role_to_str mailbox.role;
    sort_order = some (pos mailbox.sort_order);
    path = path;
  }

  -- The body of the loop, for a mailbox with an id.
  unfoldable pub include_id :
      ℕ
      → Dict Text Mailbox
      → Dict Text Text
      → Option (Text → Bool)
      → Mailbox
      → Dict Text TargetMailbox
      → Option Text
      → Result Error (Dict Text TargetMailbox)
  include_id fuel by_jmap_id name_map globs mailbox included none = ok included
  include_id fuel by_jmap_id name_map globs mailbox included (some jmap_id) = do
    path ← resolve_path by_jmap_id name_map fuel mailbox
    name ← or_error no_mailbox_name mailbox.name
    ok (
        if in_scope globs mailbox path
        then Dict.insert jmap_id (target_of name_map jmap_id name path mailbox) included
        else included)

  -- The body of the loop.
  abbrev pub include :
      ℕ
      → Dict Text Mailbox
      → Dict Text Text
      → Option (Text → Bool)
      → Mailbox
      → Dict Text TargetMailbox
      → Result Error (Dict Text TargetMailbox)
  include fuel by_jmap_id name_map globs mailbox included =
      include_id fuel by_jmap_id name_map globs mailbox included mailbox.id

  unfoldable pub include_all :
      ℕ
      → Dict Text Mailbox
      → Dict Text Text
      → Option (Text → Bool)
      → List Mailbox
      → Dict Text TargetMailbox
      → Result Error (Dict Text TargetMailbox)
  include_all fuel by_jmap_id name_map globs [] included = ok included
  include_all fuel by_jmap_id name_map globs (m ∷ ms) included = do
    included' ← include fuel by_jmap_id name_map globs m included
    include_all fuel by_jmap_id name_map globs ms included'

  -- Each mailbox is an ancestor at most once, so this much fuel is enough.
  unfoldable pub build_target_set : List Mailbox → Result Error (Dict Text TargetMailbox)
  build_target_set server_view = do
    globs ← filter_globs
    let by_jmap_id = index_mailboxes server_view []
    include_all (suc (suc (length by_jmap_id))) by_jmap_id (name_mapping mail_cfg.box_mapping [])
        globs server_view []
