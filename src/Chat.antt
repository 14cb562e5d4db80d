-- ===== src/Chat.antt =====
-- apps/web/src/stores/chatStore.ts. A conversation is an object of JavaScript: a member may be
-- missing, whatever its type says.
pub mod Laws
pub mod Whole
pub mod Reached
use winkd.Prelude.{
  ℕ, Bool, true, false, Option, none, some, List, [], ◌∷◌, ◌++◌, Str, lit, str_eq, str_eq_instance,
  if◌then◌else◌, ◌||◌, zero, suc, map,
}
use winkd.Prelude.Dict
use winkd.Prelude.Dict.{Dict}
use winkd.Prelude.Keyed.{change}
use winkd.Messages.{
  MessageType, text, winkd_type, nudge, absent, own, Message, message_id, next_messages,
}

pub record Conversation : Type 0 where
  pub id : Option Str
  pub contact_id : Option Str
  pub messages : Option (List Message)
  pub is_shaking : Option Bool

-- `null` and `undefined` are both `none` in `active_conversation_id`.
pub record ChatState : Type 0 where
  pub conversations : Dict Str Conversation
  pub active_conversation_id : Option Str

abbrev pub initial : ChatState
initial = record { conversations = []; active_conversation_id = none }

-- `c.contactId === contactId`
abbrev is_with : Str → Conversation → Bool
is_with contact conversation = elim conversation.contact_id [
  | none ↦ false
  | some c ↦ str_eq c contact
]

-- `Object.values(conversations).find((c) => c.contactId === contactId)`
unfoldable pub find_with : Str → Dict Str Conversation → Option Conversation
find_with contact [] = none
find_with contact ((k, c) ∷ rest) = if is_with contact c then some c else find_with contact rest

abbrev pub fresh_conversation : Str → Conversation
fresh_conversation contact = record {
  id = some contact;
  contact_id = some contact;
  messages = some [];
  is_shaking = some false;
}

unfoldable pub open_conversation : Str → ChatState → ChatState
open_conversation contact s = elim (find_with contact s.conversations) [
  | none ↦ record {
    conversations = Dict.put contact (fresh_conversation contact) s.conversations;
    active_conversation_id = some contact;
  }
  | some existing ↦ record s { active_conversation_id = existing.id }
]

unfoldable pub close_conversation : ChatState → ChatState
close_conversation s = record s { active_conversation_id = none }

-- `{ ...undefined }`
abbrev no_members : Conversation
no_members = record { id = none; contact_id = none; messages = none; is_shaking = none }

abbrev pub conversation_or_empty : Option Conversation → Conversation
conversation_or_empty none = no_members
conversation_or_empty (some c) = c

-- `conversation?.messages ?? []`
abbrev pub messages_or_empty : Option (List Message) → List Message
messages_or_empty none = []
messages_or_empty (some ms) = ms

-- The state that the four `send` actions set.
unfoldable pub append_message : Str → Message → ChatState → ChatState
append_message conversation msg s =
    let c = conversation_or_empty (Dict.get conversation s.conversations) in
    record s {
      conversations =
          Dict.put conversation
            (record c { messages = some (messages_or_empty c.messages ++ msg ∷ []) })
            s.conversations;
    }

-- What `randomUUID` and `toISOString` return.
pub record Stamp : Type 0 where
  pub id : Str
  pub time : Str

unfoldable pub bare_message : MessageType → Stamp → Str → Str → Message
bare_message type stamp conversation sender = record {
  id = stamp.id;
  conversation_id = conversation;
  sender_id = sender;
  type = type;
  sent_at = stamp.time;
  delivered = false;
  read = false;
  body = absent;
  media_data = absent;
  media_url = absent;
  media_name = absent;
  media_mime = absent;
  media_size = absent;
  pack_id = absent;
  animation_id = absent;
}

-- The new state and the payload that is handed to `send`.
unfoldable pub send_text : Stamp → Str → Str → Str → ChatState → ChatState × Message
send_text stamp conversation sender body s =
    let msg = record (bare_message text stamp conversation sender) { body = own body } in
    (append_message conversation msg s, msg)

pub record Attachment : Type 0 where
  pub media_data : Str
  pub media_name : Str
  pub media_mime : Str
  pub media_size : ℕ
  pub body : Option Str

-- A paper clip (a surrogate pair), a space and the name.
abbrev caption : Option Str → Str → Str
caption none name = 0xD83D ∷ 0xDCCE ∷ 0x20 ∷ name
caption (some body) name = body

unfoldable pub send_attachment : Stamp → Str → Str → Attachment → ChatState → ChatState × Message
send_attachment stamp conversation sender a s =
    let msg = record (bare_message text stamp conversation sender) {
      body = own (caption a.body a.media_name);
      media_data = own a.media_data;
      media_name = own a.media_name;
      media_mime = own a.media_mime;
      media_size = own a.media_size;
    } in
    (append_message conversation msg s, msg)

unfoldable pub send_winkd : Stamp → Str → Str → ChatState → ChatState × Message
send_winkd stamp conversation sender s =
    let msg = bare_message winkd_type stamp conversation sender in
    (append_message conversation msg s, msg)

unfoldable pub send_nudge : Stamp → Str → Str → ChatState → ChatState × Message
send_nudge stamp conversation sender s =
    let msg = bare_message nudge stamp conversation sender in
    (append_message conversation msg s, msg)

abbrev is_winkd : MessageType → Bool
is_winkd winkd_type = true
is_winkd _ = false

-- The conversation that a message leaves in place of the old one.
unfoldable pub received_in : Message → Conversation → Conversation
received_in message conv = record {
  id = some message.conversation_id;
  contact_id = some (elim conv.contact_id [ none ↦ message.sender_id | some c ↦ c ]);
  messages = some (next_messages message (messages_or_empty conv.messages));
  is_shaking = some (is_winkd message.type);
}

unfoldable pub receive_message : Message → ChatState → ChatState
receive_message message s =
    let conv = conversation_or_empty (Dict.get message.conversation_id s.conversations) in
    record s {
      conversations = Dict.put message.conversation_id (received_in message conv) s.conversations;
    }

-- The members that every object of JavaScript inherits.
abbrev inherited_names : List Str
inherited_names =
    lit "constructor"
    ∷ lit "__proto__"
    ∷ lit "toString"
    ∷ lit "toLocaleString"
    ∷ lit "valueOf"
    ∷ lit "hasOwnProperty"
    ∷ lit "isPrototypeOf"
    ∷ lit "propertyIsEnumerable"
    ∷ lit "__defineGetter__"
    ∷ lit "__defineSetter__"
    ∷ lit "__lookupGetter__"
    ∷ lit "__lookupSetter__"
    ∷ []

abbrev is_one_of : List Str → Str → Bool
is_one_of [] name = false
is_one_of (n ∷ ns) name = str_eq n name || is_one_of ns name

unfoldable pub is_inherited : Str → Bool
is_inherited name = is_one_of inherited_names name

-- `none` is the TypeError of a conversation without messages. That is also what the name of an
-- inherited member finds where no conversation has it as key.
unfoldable pub mark_message_delivered : Str → Str → ChatState → Option ChatState
mark_message_delivered conversation id s = elim (Dict.get conversation s.conversations) [
  | none ↦ if is_inherited conversation then none else some s
  | some conv ↦ elim conv.messages [
    | none ↦ none
    | some ms ↦ some (record s {
      conversations =
          Dict.put conversation
            (record conv {
              messages = some (change message_id id (λ m. record m { delivered = true }) ms);
            })
            s.conversations;
    })
  ]
]

unfoldable pub clear_shaking : Str → ChatState → ChatState
clear_shaking conversation s =
    let c = conversation_or_empty (Dict.get conversation s.conversations) in
    record s {
      conversations = Dict.put conversation (record c { is_shaking = some false }) s.conversations;
    }
