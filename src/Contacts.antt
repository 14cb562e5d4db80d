-- ===== src/Contacts.antt =====
-- packages/types/src/user.ts and contact.ts.
pub mod Store
pub mod Manager
use winkd.Prelude.{ℕ, Option, Str}

pub data UserStatus : Type 0 where
  online away busy invisible : UserStatus

pub data ContactRequestStatus : Type 0 where
  pending_outbound pending_inbound accepted blocked : ContactRequestStatus

pub record Contact : Type 0 where
  pub id : Str
  pub winkd_id : Str
  pub display_name : Str
  pub mood_message : Str
  pub status : UserStatus
  pub avatar_data : Option Str
  pub request_status : ContactRequestStatus
  pub unread_count : ℕ
  pub last_message_at : Option Str
