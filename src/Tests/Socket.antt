-- ===== src/Tests/Socket.antt =====
-- Concrete frames and events of `useSocket`.
use winkd.Prelude.{
  ◌≡◌, refl, true, false, none, some, List, [], ◌∷◌, map, Str, lit, str_eq, arith, str_eq_instance,
  length, get_elem?,
}
use winkd.Prelude.Dict
use winkd.Text.{Unicode, IsUnicode, ascii_lower}
use winkd.Json.{Json, Members, get}
use winkd.Connections.{is_opened, set, AuthFirst}
use winkd.Contacts.Store
use winkd.Contacts.Store.{contact_id, blocked_id, invitation_id, inviter}
use winkd.Chat
use winkd.Chat.{open_conversation}
use winkd.Auth.{SignedIn, default_supporter_state}
use winkd.ServerEvents.{ServerEvent, Frame, AcceptedPayload, BlockedPayload}
use winkd.Socket.{Stores, Captured, is_auth_ok}
use winkd.Socket.Frames.{AreValid, on_messages, on_messages-AreValid, on_messages_before_auth}
use winkd.Socket.Hook.{Hook, unmounted, start, clean_up, on_open, on_close, send}
use winkd.Socket.Hook.Laws.{Reached, Reached-AuthFirst}
use winkd.Socket.Hook.Stale.{send-on_close_old}
use winkd.Tests.Stores.{profile, invitation, initial-IsConsistent}

instance abbrev pub ascii_only : Unicode
ascii_only = record { to_lower_case = λ s. map ascii_lower s }

pub ascii_only-IsUnicode : IsUnicode ascii_only
ascii_only-IsUnicode = record { lower_ascii = λ s h. refl }

abbrev me : SignedIn
me = record { token = lit "t1"; profile = profile; supporter = default_supporter_state }

abbrev before : Stores
before = record { auth = some me; chat = Chat.initial; contacts = Store.initial }

abbrev nothing_open : Captured
nothing_open = record {
  token = lit "t1";
  own_winkd_id = lit "me#0000";
  active_conversation_id = none;
}

abbrev auth_ok : Frame
auth_ok =
    Frame.envelope
      (Members.member (lit "type") (Json.text (lit "auth_ok"))
        (Members.member (lit "tier") (Json.text (lit " Plus ")) Members.empty))
      ServerEvent.unknown_event

abbrev message_frame : Frame
message_frame =
    Frame.envelope (Members.member (lit "event") (Json.text (lit "message")) Members.empty) (
      ServerEvent.message (
        some (
          Json.object (
            Members.member (lit "id") (Json.number 7) (
              Members.member (lit "conversation_id") (Json.text (lit "carol#1234"))
                (Members.member (lit "senderId") (Json.text (lit "carol#1234")) Members.empty))))))

abbrev arriving : List (Str × Frame)
arriving = (lit "T1", auth_ok) ∷ (lit "T2", message_frame) ∷ (lit "T3", Frame.malformed) ∷ []

before-AreValid : AreValid before
unfolding Dict.get
before-AreValid = record { contacts = initial-IsConsistent; chat = λ k c e. cc }

on_messages-AreValid_example : AreValid (on_messages nothing_open arriving (false, before)).1
on_messages-AreValid_example =
    on_messages-AreValid nothing_open arriving false before (tt, (tt, (tt, tt))) before-AreValid

on_messages_before_auth_example :
    on_messages nothing_open
      ((lit "T2", message_frame) ∷ (lit "T3", Frame.malformed) ∷ [])
      (false, before)
    ≡ (false, before)
unfolding is_auth_ok get str_eq
on_messages_before_auth_example =
    on_messages_before_auth nothing_open
      ((lit "T2", message_frame) ∷ (lit "T3", Frame.malformed) ∷ []) before (refl, (tt, tt))

abbrev in_view : Stores
in_view = record before { chat = open_conversation (lit "carol#1234") Chat.initial }

abbrev blocking : BlockedPayload
blocking = record {
  request_id = some (lit "r1");
  user_id = lit "u7";
  winkd_id = lit "carol#1234";
  display_name = lit "Carol";
  avatar_data = none;
  blocked_at = lit "T4";
}

abbrev requested : Stores
requested = record before {
  contacts = record Store.initial {
    pending_invitations = invitation (lit "r1") (lit "carol#1234") ∷ [];
  };
}

abbrev accepting : AcceptedPayload
accepting = record {
  winkd_id = lit "carol#1234";
  display_name = lit "Carol";
  avatar_data = none;
  mood_message = none;
}

abbrev connected : Hook
connected = send (lit "{}") (on_open 0 (start (some me) none unmounted))

connected-Reached : Reached connected
unfolding start
connected-Reached =
    Reached.sends (lit "{}") (Reached.opens 0 refl (Reached.started (some me) none Reached.mounted))

Reached-AuthFirst_example : AuthFirst connected.sent
Reached-AuthFirst_example = Reached-AuthFirst connected-Reached

send-on_close_old_example :
    let now : Hook =
      (on_close 0 1000 (
        on_open (length connected.connections) (start (some me) none (clean_up 0 connected)),
        some me,
      )).0 in
    (is_opened (get_elem? now.connections (length connected.connections)) ≡ true)
    × (send (lit "{}") now ≡ now)
unfolding start on_open send is_opened set
send-on_close_old_example =
    send-on_close_old connected 0 1000 me none (some me) (lit "{}") connected-Reached (omega arith)
