-- ===== src/ServerEvents.antt =====
-- What the server sends to apps/web/src/hooks/useSocket.ts. The payloads of all events but `message`
-- are cast in the source, without a check: here they have the types that they are cast to.
pub mod Reading
use winkd.Prelude.{
  ℕ, Bool, true, false, not, ◌&&◌, Option, none, some, List, [], ◌∷◌, map, Str, lit, str_eq,
  if◌then◌else◌,
}
use winkd.Text.{trim, Unicode}
use winkd.Json.{
  Json, Members, get, members_of, coalesce, string_of, boolean_of, text_of, number_of, texts_of,
}
use winkd.Contacts.{
  Contact, UserStatus, online, invisible, ContactRequestStatus, accepted, pending_outbound,
}
use winkd.Contacts.Store.{ContactsState, PendingInvitation, BlockedUser}
use winkd.Contacts.Store
use winkd.Messages.{
  MessageType, text, winkd_type, nudge, wink, emoticon, system, other, Member, absent, undefined,
  own, Message,
}
use winkd.Chat.{ChatState, receive_message, mark_message_delivered, close_conversation}
use winkd.Auth.{AuthState, SupporterPatch, free, plus, set_supporter_state}

pub record AcceptedPayload : Type 0 where
  pub winkd_id : Str
  pub display_name : Str
  pub avatar_data : Option Str
  pub mood_message : Option Str

pub record SnapshotContact : Type 0 where
  pub winkd_id : Str
  pub display_name : Str
  pub avatar_data : Option Str
  pub mood_message : Option Str
  pub is_accepted : Bool

pub record BlockedPayload : Type 0 where
  pub request_id : Option Str
  pub user_id : Str
  pub winkd_id : Str
  pub display_name : Str
  pub avatar_data : Option Str
  pub blocked_at : Str

pub record SentPayload : Type 0 where
  pub request_id : Str
  pub to_winkd_id : Str
  pub to_display_name : Str
  pub to_avatar_data : Option Str

-- `unknown_event` is any other event, or none. `presence` has all members of its payload, and the
-- status among them.
pub data ServerEvent : Type 0 where
  message : Option Json → ServerEvent
  presence : Members → UserStatus → ServerEvent
  contact_request : PendingInvitation → ServerEvent
  contact_accepted : AcceptedPayload → ServerEvent
  contacts_snapshot : List SnapshotContact → ServerEvent
  contact_request_rejected : Str → ServerEvent
  blocked_list : List BlockedUser → ServerEvent
  contact_blocked : BlockedPayload → ServerEvent
  contact_unblocked : Str → ServerEvent
  contact_request_sent : SentPayload → ServerEvent
  delivery_receipt : (message_id conversation_id : Str) → ServerEvent
  unknown_event : ServerEvent

-- A text that is no JSON, or whose members cannot be read, is `malformed`. `members` are all
-- members of the envelope, `event` is what its event and payload say.
pub data Frame : Type 0 where
  malformed : Frame
  envelope : (members : Members) → (event : ServerEvent) → Frame
