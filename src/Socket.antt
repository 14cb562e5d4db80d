-- ===== src/Socket.antt =====
-- apps/web/src/hooks/useSocket.ts: what arrives on an open socket, and the three stores that it
-- changes.
pub mod Hook
pub mod Frames
pub mod Events
use winkd.Prelude.{
  ℕ, Bool, true, false, not, ◌&&◌, Option, none, some, List, [], ◌∷◌, map, Str, lit, str_eq,
  if◌then◌else◌,
}
use winkd.Text.{trim, Unicode}
use winkd.Json.{
  Json, Members, get, members_of, coalesce, string_of, boolean_of, text_of, number_of, texts_of,
}
use winkd.Contacts.{
  Contact, UserStatus, online, invisible, ContactRequestStatus, accepted, pending_outbound,
}
use winkd.Contacts.Store.{ContactsState, PendingInvitation, BlockedUser}
use winkd.Contacts.Store
use winkd.Messages.{
  MessageType, text, winkd_type, nudge, wink, emoticon, system, other, Member, absent, undefined,
  own, Message,
}
use winkd.Chat.{ChatState, receive_message, mark_message_delivered, close_conversation}
use winkd.ServerEvents.{
  AcceptedPayload, SnapshotContact, BlockedPayload, SentPayload, ServerEvent, Frame,
}
use winkd.ServerEvents.Reading.{or_empty, or_zero, normalise_message, payload_members}
use winkd.Auth.{AuthState, SupporterPatch, free, plus, set_supporter_state}

pub record Stores : Type 0 where
  pub auth : AuthState
  pub chat : ChatState
  pub contacts : ContactsState

-- What the effect's closures captured when it ran.
pub record Captured : Type 0 where
  pub token : Str
  pub own_winkd_id : Str
  pub active_conversation_id : Option Str

-- `a === b` of a text and a captured id that may be null.
abbrev pub is_id : Str → Option Str → Bool
is_id s none = false
is_id s (some t) = str_eq s t

abbrev pub is_empty : Str → Bool
is_empty [] = true
is_empty (c ∷ s) = false

-- A message for which the other person's count goes up.
abbrev pub counts_as_unread : Captured → Message → Bool
counts_as_unread c msg =
    not (str_eq msg.sender_id c.own_winkd_id)
    && not (is_id msg.conversation_id c.active_conversation_id)

unfoldable pub deliver : Captured → Message → Stores → Stores
deliver c msg s =
    if is_empty msg.id
    then s
    else if is_empty msg.conversation_id
    then s
    else if is_empty msg.sender_id
    then s
    else record s {
      chat = receive_message msg s.chat;
      contacts =
          if counts_as_unread c msg
          then Store.increment_unread msg.sender_id s.contacts
          else s.contacts;
    }

unfoldable pub accepted_contact : AcceptedPayload → Contact
accepted_contact p = record {
  id = p.winkd_id;
  winkd_id = p.winkd_id;
  display_name = p.display_name;
  mood_message = or_empty p.mood_message;
  status = online;
  avatar_data = p.avatar_data;
  request_status = accepted;
  unread_count = 0;
  last_message_at = none;
}

unfoldable pub snapshot_contact : SnapshotContact → Contact
snapshot_contact p = record {
  id = p.winkd_id;
  winkd_id = p.winkd_id;
  display_name = p.display_name;
  mood_message = or_empty p.mood_message;
  status = if p.is_accepted then online else invisible;
  avatar_data = p.avatar_data;
  request_status = if p.is_accepted then accepted else pending_outbound;
  unread_count = 0;
  last_message_at = none;
}

unfoldable pub sent_contact : SentPayload → Contact
sent_contact p = record {
  id = p.to_winkd_id;
  winkd_id = p.to_winkd_id;
  display_name = p.to_display_name;
  mood_message = [];
  status = invisible;
  avatar_data = p.to_avatar_data;
  request_status = pending_outbound;
  unread_count = 0;
  last_message_at = none;
}

unfoldable pub blocked_user : BlockedPayload → BlockedUser
blocked_user p = record {
  user_id = p.user_id;
  winkd_id = p.winkd_id;
  display_name = p.display_name;
  avatar_data = p.avatar_data;
  blocked_at = p.blocked_at;
}

-- `if (payload.request_id) removePendingInvitation(…)`
abbrev pub remove_if_given : Option Str → ContactsState → ContactsState
remove_if_given none s = s
remove_if_given (some []) s = s
remove_if_given (some (c ∷ id)) s = Store.remove_pending_invitation (c ∷ id) s

-- The state stays as it is if the call throws.
abbrev pub or_old : ChatState → Option ChatState → ChatState
or_old old none = old
or_old old (some new) = new

-- No contact has an id that is no text.
abbrev pub update_status_if : Option Str → UserStatus → Stores → Stores
update_status_if none status s = s
update_status_if (some id) status s = record s {
  contacts = Store.update_contact_status id status s.contacts;
}

-- An event after `auth_ok`, at a time.
unfoldable pub dispatch : Captured → Str → ServerEvent → Stores → Stores
unfolding get
dispatch c now (ServerEvent.message payload) s =
    deliver c (normalise_message now (payload_members payload)) s
dispatch c now (ServerEvent.presence payload status) s =
    update_status_if (text_of (get (lit "userId") payload)) status s
dispatch c now (ServerEvent.contact_request invitation) s = record s {
  contacts = Store.upsert_pending_invitation invitation s.contacts;
}
dispatch c now (ServerEvent.contact_accepted p) s = record s {
  contacts =
      Store.add_accepted_contact (accepted_contact p)
        (Store.clear_pending_from_user p.winkd_id s.contacts);
}
dispatch c now (ServerEvent.contacts_snapshot ps) s = record s {
  contacts = Store.set_contacts (map snapshot_contact ps) s.contacts;
}
dispatch c now (ServerEvent.contact_request_rejected id) s = record s {
  contacts = Store.remove_pending_invitation id s.contacts;
}
dispatch c now (ServerEvent.blocked_list us) s = record s {
  contacts = Store.set_blocked_users us s.contacts;
}
dispatch c now (ServerEvent.contact_blocked p) s = record s {
  chat = if is_id p.winkd_id c.active_conversation_id then close_conversation s.chat else s.chat;
  contacts =
      Store.remove_contact p.winkd_id
        (Store.upsert_blocked_user (blocked_user p) (remove_if_given p.request_id s.contacts));
}
dispatch c now (ServerEvent.contact_unblocked id) s = record s {
  contacts = Store.remove_blocked_user id s.contacts;
}
dispatch c now (ServerEvent.contact_request_sent p) s = record s {
  contacts = Store.add_accepted_contact (sent_contact p) s.contacts;
}
dispatch c now (ServerEvent.delivery_receipt id conversation) s =
    if is_empty id
    then s
    else if is_empty conversation
    then s
    else record s { chat = or_old s.chat (mark_message_delivered conversation id s.chat) }
dispatch c now ServerEvent.unknown_event s = s

-- `envelope.type === 'auth_ok'`
unfoldable pub is_auth_ok : Members → Bool
unfolding get
is_auth_ok members = elim (text_of (get (lit "type") members)) [
  | none ↦ false
  | some s ↦ str_eq s (lit "auth_ok")
]

module _ ⦃unicode : Unicode⦄ where
  -- The supporter state that `auth_ok` announces.
  unfoldable pub announced : Members → SupporterPatch
  unfolding get
  announced ms = record {
    tier = some (
        if str_eq (unicode.to_lower_case (trim (or_empty (text_of (get (lit "tier") ms)))))
          (lit "plus")
        then plus
        else free);
    purchased_extras = some (texts_of (get (lit "purchased_extras") ms));
    buddy_cap = some (number_of (get (lit "buddy_cap") ms));
    buddy_used = some (or_zero (number_of (get (lit "buddy_used") ms)));
    group_chat_unlocked = some (boolean_of (get (lit "group_chat_unlocked") ms));
    supporter_expires_at = some (text_of (get (lit "supporter_expires_at") ms));
  }

  -- `onmessage`: the flag `authenticated` and the stores.
  unfoldable pub on_message : Captured → Str → Frame → Bool × Stores → Bool × Stores
  on_message c now Frame.malformed s = s
  on_message c now (Frame.envelope members event) (true, s) = (true, dispatch c now event s)
  on_message c now (Frame.envelope members event) (false, s) =
      if is_auth_ok members
      then (true, record s { auth = set_supporter_state (announced members) s.auth })
      else (false, s)
