-- ===== src/ServerEvents/Reading.antt =====
-- How `onmessage` of apps/web/src/hooks/useSocket.ts reads the payload of a message.
use winkd.Prelude.{ℕ, Option, none, some, List, [], Str, lit, str_eq, if◌then◌else◌}
use winkd.Json.{Json, Members, get, members_of, coalesce, string_of, boolean_of, text_of, number_of}
use winkd.Messages.{
  MessageType, text, winkd_type, nudge, wink, emoticon, system, other, Member, absent, undefined,
  own, Message,
}

abbrev pub or_empty {ℓ} : {A : Type ℓ} → Option (List A) → List A
or_empty none = []
or_empty (some s) = s

abbrev pub or_zero : Option ℕ → ℕ
or_zero none = 0
or_zero (some n) = n

-- `String(raw.a ?? raw.b ?? fallback)`
abbrev string_or : Str → Option Json → Str
string_or fallback none = fallback
string_or fallback (some v) = string_of v

abbrev not_null : Option Json → Option Json
not_null v = coalesce v none

-- A member of the message if either spelling is a text or number, or else `undefined`.
abbrev either {ℓ} : {A : Type ℓ} → Option A → Option A → Member A
either (some a) b = own a
either none (some b) = own b
either none none = undefined

unfoldable pub message_type_of : Str → MessageType
message_type_of s =
    if str_eq s (lit "text")
    then text
    else if str_eq s (lit "winkd")
    then winkd_type
    else if str_eq s (lit "nudge")
    then nudge
    else if str_eq s (lit "wink")
    then wink
    else if str_eq s (lit "emoticon")
    then emoticon
    else if str_eq s (lit "system")
    then system
    else other s

-- The message that the members of a payload are read as, at a time.
unfoldable pub normalise_message : Str → Members → Message
unfolding get message_type_of string_of
normalise_message now raw = record {
  id = string_or [] (not_null (get (lit "id") raw));
  conversation_id =
      string_or []
        (not_null (coalesce (get (lit "conversationId") raw) (get (lit "conversation_id") raw)));
  sender_id =
      string_or [] (not_null (coalesce (get (lit "senderId") raw) (get (lit "sender_id") raw)));
  type = message_type_of (string_or [] (not_null (get (lit "type") raw)));
  sent_at = string_or now (not_null (coalesce (get (lit "sentAt") raw) (get (lit "sent_at") raw)));
  delivered = boolean_of (get (lit "delivered") raw);
  read = boolean_of (get (lit "read") raw);
  body = either (text_of (get (lit "body") raw)) none;
  media_data = either (text_of (get (lit "mediaData") raw)) (text_of (get (lit "media_data") raw));
  media_url = either (text_of (get (lit "mediaUrl") raw)) (text_of (get (lit "media_url") raw));
  media_name = either (text_of (get (lit "mediaName") raw)) (text_of (get (lit "media_name") raw));
  media_mime = either (text_of (get (lit "mediaMime") raw)) (text_of (get (lit "media_mime") raw));
  media_size =
      either (number_of (get (lit "mediaSize") raw)) (number_of (get (lit "media_size") raw));
  pack_id = absent;
  animation_id = absent;
}

-- `(envelope.payload ?? {})`
abbrev pub payload_members : Option Json → Members
payload_members none = Members.empty
payload_members (some v) = members_of v
