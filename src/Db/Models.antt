-- ===== src/Db/Models.antt =====
-- src/db/models.rs: the rows.
use jmapsyncd.Base.{Bool, Option, Text}
use jmapsyncd.Base.Int.{ℤ}

pub record MailboxRow : Type 0 where
  pub id : Text
  pub jmap_id : Option Text
  pub name : Text
  pub parent_id : Option Text
  pub role : Option Text
  pub sort_order : Option ℤ
  pub path : Text
  pub jmap_state : Option Text

pub record EmailRow : Type 0 where
  pub id : Text
  pub jmap_id : Option Text
  pub message_id : Option Text
  pub file_path : Text
  pub primary_mailbox : Text
  pub keywords : Option Text
  pub jmap_state : Option Text
  pub size : Option ℤ
  pub last_sync : Option ℤ
  pub is_dirty : Bool

pub record EmailMailboxRow : Type 0 where
  pub email_id : Text
  pub mailbox_id : Text
  pub is_primary : Bool
