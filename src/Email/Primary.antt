-- ===== src/Email/Primary.antt =====
-- src/sync/email.rs: the mailbox whose Maildir holds the file of a message in several mailboxes.
pub mod Least
use mathlib.Core.List.{head?}
use Prim.Native.Nat.{compare}
use jmapsyncd.Base.{
  ℕ, suc, ◌+◌, ◌-◌, ◌^◌, Option, none, some, List, [], ◌∷◌, Text, text, ◌==◌, text_eq, length,
  filter_map, if◌then◌else◌,
}
use jmapsyncd.Base.Dict
use jmapsyncd.Base.Dict.{Dict}
use jmapsyncd.Base.Int.{ℤ, pos, cmp_ℤ}
use jmapsyncd.Base.Order.{Cmp, then_cmp, cmp_text}
use jmapsyncd.Base.Sort.{sort_by}
use jmapsyncd.Db.Models.{MailboxRow}

abbrev pub role_priority : List Text
role_priority =
    text "inbox" ∷ text "sent" ∷ text "drafts" ∷ text "archive" ∷ text "trash" ∷ text "junk" ∷ []

-- `position(|p| *p == r)`, or the number of elements.
unfoldable pub position_or_len : Text → List Text → ℕ
position_or_len r [] = 0
position_or_len r (p ∷ ps) = if p == r then 0 else 1 + position_or_len r ps

unfoldable pub role_rank : Option Text → ℕ
unfolding position_or_len
role_rank none = length role_priority
role_rank (some r) = position_or_len r role_priority

abbrev pub i64_max : ℤ
i64_max = pos (2 ^ 63 - 1)

-- `a.sort_order.unwrap_or(i64::MAX)`
abbrev pub order_of : MailboxRow → ℤ
order_of m = elim m.sort_order [ none ↦ i64_max | some n ↦ n ]

unfoldable pub cmp_candidates : Cmp MailboxRow
cmp_candidates a b =
    then_cmp (compare (role_rank a.role) (role_rank b.role))
      (then_cmp (cmp_ℤ (order_of a) (order_of b)) (cmp_text a.name b.name))

-- The mailboxes of the message that are in scope.
unfoldable pub candidates : List Text → Dict Text MailboxRow → List MailboxRow
unfolding filter_map Dict.get
candidates mailbox_jmap_ids mailbox_by_jmap =
    filter_map (λ jid. Dict.get jid mailbox_by_jmap) mailbox_jmap_ids

unfoldable pub pick_primary_mailbox : List Text → Dict Text MailboxRow → Option MailboxRow
unfolding candidates sort_by cmp_candidates cmp_ℤ cmp_text role_rank
pick_primary_mailbox mailbox_jmap_ids mailbox_by_jmap =
    head? (sort_by cmp_candidates (candidates mailbox_jmap_ids mailbox_by_jmap))
