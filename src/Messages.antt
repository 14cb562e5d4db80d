-- ===== src/Messages.antt =====
-- packages/types/src/message.ts, and the message list of a conversation in
-- apps/web/src/stores/chatStore.ts. A message is an object of JavaScript: a member may be missing.
use winkd.Prelude.{
  ℕ, zero, suc, Bool, Option, none, some, List, [], ◌∷◌, ◌++◌, Str, str_eq, if◌then◌else◌,
}

-- `winkd_type` is "winkd". What arrives from the server may be any text.
pub data MessageType : Type 0 where
  text winkd_type nudge wink emoticon system : MessageType
  other : Str → MessageType

-- A member of an object that need not be there, or be there with the value `undefined`.
pub data Member {ℓ} (A : Type ℓ) : Type ℓ where
  absent undefined : Member A
  own : A → Member A

-- `{ ...old, ...new }` at one such member.
abbrev pub over {ℓ} : {A : Type ℓ} → Member A → Member A → Member A
over old absent = old
over old undefined = undefined
over old (own new) = own new

pub record Message : Type 0 where
  pub id : Str
  pub conversation_id : Str
  pub sender_id : Str
  pub type : MessageType
  pub sent_at : Str
  pub delivered : Bool
  pub read : Bool
  pub body : Member Str
  pub media_data : Member Str
  pub media_url : Member Str
  pub media_name : Member Str
  pub media_mime : Member Str
  pub media_size : Member ℕ
  pub pack_id : Member Str
  pub animation_id : Member Str

abbrev pub message_id : Message → Str
message_id m = m.id

-- `{ ...m, ...message }`
unfoldable pub merge : Message → Message → Message
merge m message = record message {
  body = over m.body message.body;
  media_data = over m.media_data message.media_data;
  media_url = over m.media_url message.media_url;
  media_name = over m.media_name message.media_name;
  media_mime = over m.media_mime message.media_mime;
  media_size = over m.media_size message.media_size;
  pack_id = over m.pack_id message.pack_id;
  animation_id = over m.animation_id message.animation_id;
}

abbrev pub next_index : Option ℕ → Option ℕ
next_index none = none
next_index (some i) = some (suc i)

-- `findIndex`: the first message with the id.
unfoldable pub find_index : Str → List Message → Option ℕ
find_index id [] = none
find_index id (m ∷ ms) =
    let rest = find_index id ms in if str_eq m.id id then some 0 else next_index rest

-- `ms.map((m, i) => (i === existingIndex ? { ...m, ...message } : m))`
unfoldable pub merge_at : ℕ → Message → List Message → List Message
merge_at i message [] = []
merge_at zero message (m ∷ ms) = merge m message ∷ ms
merge_at (suc i) message (m ∷ ms) = m ∷ merge_at i message ms

abbrev pub merge_or_append : Option ℕ → Message → List Message → List Message
merge_or_append none message existing = existing ++ message ∷ []
merge_or_append (some i) message existing = merge_at i message existing

unfoldable pub next_messages : Message → List Message → List Message
next_messages message existing = merge_or_append (find_index message.id existing) message existing
