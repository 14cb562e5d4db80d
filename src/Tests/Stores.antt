-- ===== src/Tests/Stores.antt =====
-- Concrete states of the stores of the web client.
use winkd.Prelude.{
  ◌≡◌, refl, true, false, ◌&&◌, none, some, List, [], ◌∷◌, Str, lit, str_eq, arith, str_eq_instance,
}
use winkd.Prelude.Dict
use winkd.Prelude.Keyed.{count, has}
use mathlib.Core.List.{Perm}
use winkd.Contacts.{Contact, online, invisible, accepted}
use winkd.Contacts.Manager.{Contacts, get_all, get_grouped}
use winkd.Contacts.Manager.Groups.{all_groups, get_grouped-Perm}
use winkd.Contacts.Store.{ContactsState, PendingInvitation, invitation_id}
use winkd.Contacts.Store
use winkd.Contacts.Store.Laws.{Call, run, IsConsistent, run-IsConsistent}
use winkd.Messages.{next_messages, find_index, Message, absent, own, text}
use winkd.Chat.{
  ChatState, Stamp, open_conversation, receive_message, send_text, is_inherited,
  mark_message_delivered, clear_shaking,
}
use winkd.Chat
use winkd.Auth.{OwnProfile, ProfilePatch}
use winkd.Auth.Laws.{AuthCall, auth_run, token_of, last_token, auth_run-token}
use winkd.Chat.Whole.{AreWhole, mark_message_delivered-clear_shaking}
use winkd.Chat.Reached.{is_none, Reached, Reached-AreWhole, mark_message_delivered-Reached}

abbrev carol : Contact
carol = record {
  id = lit "carol#1234";
  winkd_id = lit "carol#1234";
  display_name = lit "Carol";
  mood_message = [];
  status = online;
  avatar_data = none;
  request_status = accepted;
  unread_count = 0;
  last_message_at = none;
}

abbrev pub invitation : Str → Str → PendingInvitation
invitation id from = record {
  request_id = id;
  from_winkd_id = from;
  from_display_name = from;
  from_avatar_data = none;
}

abbrev calls : List Call
calls =
    Call.add_accepted_contact carol
    ∷ Call.upsert_pending_invitation (invitation (lit "r1") (lit "dave#0001"))
    ∷ Call.upsert_pending_invitation (invitation (lit "r1") (lit "erin#0002"))
    ∷ Call.add_accepted_contact carol
    ∷ []

pub initial-IsConsistent : IsConsistent Store.initial
unfolding count
initial-IsConsistent = record {
  contacts = λ k. omega arith;
  invitations = λ k. omega arith;
  blocked = λ k. omega arith;
}

run-IsConsistent_example : IsConsistent (run calls Store.initial)
run-IsConsistent_example =
    run-IsConsistent calls Store.initial (tt, (tt, (tt, (tt, tt)))) initial-IsConsistent

abbrev one_invited : ContactsState
one_invited = record Store.initial {
  pending_invitations = invitation (lit "r1") (lit "dave#0001") ∷ [];
}

abbrev two_contacts : Contacts
two_contacts =
    (lit "carol#1234", carol)
    ∷ (lit "dave#0001", record carol { id = lit "dave#0001"; status = invisible })
    ∷ []

get_grouped-Perm_example : Perm (all_groups (get_grouped two_contacts)) (get_all two_contacts)
get_grouped-Perm_example = get_grouped-Perm two_contacts

abbrev pub hello : Message
hello = record {
  id = lit "m1";
  conversation_id = lit "carol#1234";
  sender_id = lit "carol#1234";
  type = text;
  sent_at = lit "2026-01-01T00:00:00.000Z";
  delivered = true;
  read = false;
  body = own (lit "hello");
  media_data = absent;
  media_url = absent;
  media_name = absent;
  media_mime = absent;
  media_size = absent;
  pack_id = absent;
  animation_id = absent;
}

abbrev opened : ChatState
opened = open_conversation (lit "carol#1234") Chat.initial

abbrev answer : Stamp
answer = record { id = lit "m2"; time = lit "2026-01-01T00:00:01.000Z" }

abbrev answered : ChatState
answered =
    (send_text answer (lit "carol#1234") (lit "me#0000") (lit "hi")
      (receive_message hello Chat.initial)).0

answered-Reached : Reached answered
unfolding receive_message Chat.received_in next_messages find_index Dict.get Dict.put str_eq has
answered-Reached =
    Reached.text_sent answer (lit "carol#1234") (lit "me#0000") (lit "hi") _ (_, refl, refl)
      (Reached.received hello Chat.initial Reached.start)

Reached-AreWhole_example : AreWhole answered.conversations
Reached-AreWhole_example = Reached-AreWhole answered answered-Reached

mark_message_delivered-Reached_example :
    is_none (mark_message_delivered (lit "carol#1234") (lit "m2") answered) ≡ (
      is_none (Dict.get (lit "carol#1234") answered.conversations)
      && is_inherited (lit "carol#1234"))
mark_message_delivered-Reached_example =
    mark_message_delivered-Reached (lit "carol#1234") (lit "m2") answered answered-Reached

-- An id of a message that is nowhere, in a conversation with the name of an inherited member.
inherited_example : mark_message_delivered (lit "constructor") (lit "m2") Chat.initial ≡ none
unfolding mark_message_delivered is_inherited Dict.get str_eq
inherited_example = refl

mark_message_delivered-clear_shaking_example :
    mark_message_delivered
      (lit "dave#0001")
      (lit "m1")
      (clear_shaking (lit "dave#0001") Chat.initial)
    ≡ none
unfolding Dict.get
mark_message_delivered-clear_shaking_example =
    mark_message_delivered-clear_shaking (lit "dave#0001") (lit "m1") Chat.initial refl

abbrev pub profile : OwnProfile
profile = record {
  winkd_id = lit "me#0000";
  display_name = lit "Me";
  mood_message = [];
  status = online;
  avatar_data = none;
  session_token = lit "t1";
}

abbrev renamed : ProfilePatch
renamed = record {
  winkd_id = none;
  display_name = some (lit "Myself");
  mood_message = none;
  status = none;
  avatar_data = none;
  session_token = none;
}

abbrev signing_in : List AuthCall
signing_in = AuthCall.login_call (lit "t1") profile ∷ AuthCall.update_profile_call renamed ∷ []

auth_run-token_example : token_of (auth_run signing_in none) ≡ some (lit "t1")
unfolding last_token
auth_run-token_example = auth_run-token signing_in none
