-- ===== src/Socket/Frames.antt =====
-- A sequence of frames on one connection, and what it keeps.
use winkd.Prelude.{
  ◌≡◌, refl, Bool, true, false, Option, none, some, List, [], ◌∷◌, map, Str, lit, All,
  if◌then◌else◌, Bool-cases, Option-cases, inl, inr,
}
use winkd.Text.{Unicode}
use winkd.Json.{get, text_of}
use winkd.Contacts.{UserStatus}
use winkd.Contacts.Store.{ContactsState, contact_id, blocked_id}
use winkd.Contacts.Store.Laws.{Unique, Call, call, IsConsistent, call-IsConsistent}
use winkd.Chat.{ChatState, mark_message_delivered, close_conversation}
use winkd.Chat.Whole.{AreWhole, receive_message-AreWhole, mark_message_delivered-AreWhole}
use winkd.Messages.{Message}
use winkd.ServerEvents.{ServerEvent, Frame}
use winkd.Socket.{
  Stores, Captured, deliver, counts_as_unread, dispatch, on_message, is_auth_ok, snapshot_contact,
  accepted_contact, sent_contact, blocked_user, remove_if_given, is_empty, is_id, or_old,
  update_status_if,
}

-- The lists that replace a part of the state hold no key twice.
abbrev pub IsProper : ServerEvent → Type 0
IsProper (ServerEvent.contacts_snapshot ps) = Unique contact_id (map snapshot_contact ps)
IsProper (ServerEvent.blocked_list us) = Unique blocked_id us
IsProper _ = Unit

abbrev pub IsProperFrame : Frame → Type 0
IsProperFrame Frame.malformed = Unit
IsProperFrame (Frame.envelope members event) = IsProper event

-- What the stores keep: no key twice in the contacts, and whole conversations.
pub record AreValid (s : Stores) : Type 0 where
  pub contacts : IsConsistent s.contacts
  pub chat : AreWhole s.chat.conversations

-- Both branches have the property.
if_keeps {ℓ κ} :
    {A : Type ℓ} (P : A → Type κ) (b : Bool) (x y : A) → P x → P y → P (if b then x else y)
if_keeps P true x y p q = p
if_keeps P false x y p q = q

deliver-AreValid : (c : Captured) (m : Message) (s : Stores) → AreValid s → AreValid (deliver c m s)
unfolding deliver call
deliver-AreValid c m s v = if_keeps AreValid (is_empty m.id) s _ v (
    if_keeps AreValid (is_empty m.conversation_id) s _ v (
      if_keeps AreValid (is_empty m.sender_id) s _ v (record {
        contacts =
            if_keeps IsConsistent (counts_as_unread c m) _ s.contacts
              (call-IsConsistent (Call.increment_unread m.sender_id) s.contacts tt v.contacts)
              v.contacts;
        chat = receive_message-AreWhole m s.chat v.chat;
      })))

remove_if_given-IsConsistent :
    (id : Option Str) (s : ContactsState) → IsConsistent s → IsConsistent (remove_if_given id s)
unfolding call
remove_if_given-IsConsistent none s v = v
remove_if_given-IsConsistent (some []) s v = v
remove_if_given-IsConsistent (some (c ∷ id)) s v =
    call-IsConsistent (Call.remove_pending_invitation (c ∷ id)) s tt v

update_status_if-AreValid :
    (id : Option Str) (status : UserStatus) (s : Stores)
    → AreValid s
    → AreValid (update_status_if id status s)
unfolding call
update_status_if-AreValid none status s v = v
update_status_if-AreValid (some id) status s v = record {
  contacts = call-IsConsistent (Call.update_contact_status id status) s.contacts tt v.contacts;
  chat = v.chat;
}

or_old-AreWhole :
    (conversation id : Str) (s : ChatState)
    → AreWhole s.conversations
    → AreWhole (or_old s (mark_message_delivered conversation id s)).conversations
or_old-AreWhole conversation id s v =
    elim (Option-cases (mark_message_delivered conversation id s)) [
      | inl e ↦ rw e v
      | inr (next, e) ↦ rw e (mark_message_delivered-AreWhole conversation id s next e v)
    ]

dispatch-AreValid :
    (c : Captured) (now : Str) (e : ServerEvent) (s : Stores)
    → IsProper e
    → AreValid s
    → AreValid (dispatch c now e s)
unfolding dispatch call close_conversation
dispatch-AreValid c now (ServerEvent.message payload) s p v = deliver-AreValid c _ s v
dispatch-AreValid c now (ServerEvent.presence payload status) s p v =
    update_status_if-AreValid (text_of (get (lit "userId") payload)) status s v
dispatch-AreValid c now (ServerEvent.contact_request i) s p v = record {
  contacts = call-IsConsistent (Call.upsert_pending_invitation i) s.contacts tt v.contacts;
  chat = v.chat;
}
dispatch-AreValid c now (ServerEvent.contact_accepted a) s p v = record {
  contacts =
      call-IsConsistent (Call.add_accepted_contact (accepted_contact a)) _ tt
        (call-IsConsistent (Call.clear_pending_from_user a.winkd_id) s.contacts tt v.contacts);
  chat = v.chat;
}
dispatch-AreValid c now (ServerEvent.contacts_snapshot ps) s p v = record {
  contacts =
      call-IsConsistent (Call.set_contacts (map snapshot_contact ps)) s.contacts p v.contacts;
  chat = v.chat;
}
dispatch-AreValid c now (ServerEvent.contact_request_rejected id) s p v = record {
  contacts = call-IsConsistent (Call.remove_pending_invitation id) s.contacts tt v.contacts;
  chat = v.chat;
}
dispatch-AreValid c now (ServerEvent.blocked_list us) s p v = record {
  contacts = call-IsConsistent (Call.set_blocked_users us) s.contacts p v.contacts;
  chat = v.chat;
}
dispatch-AreValid c now (ServerEvent.contact_blocked b) s p v = record {
  contacts = call-IsConsistent (Call.remove_contact b.winkd_id) _ tt (
      call-IsConsistent (Call.upsert_blocked_user (blocked_user b)) _ tt
        (remove_if_given-IsConsistent b.request_id s.contacts v.contacts));
  chat =
      if_keeps (λ (t : ChatState). AreWhole t.conversations)
        (is_id b.winkd_id c.active_conversation_id) _ s.chat v.chat v.chat;
}
dispatch-AreValid c now (ServerEvent.contact_unblocked id) s p v = record {
  contacts = call-IsConsistent (Call.remove_blocked_user id) s.contacts tt v.contacts;
  chat = v.chat;
}
dispatch-AreValid c now (ServerEvent.contact_request_sent a) s p v = record {
  contacts =
      call-IsConsistent (Call.add_accepted_contact (sent_contact a)) s.contacts tt v.contacts;
  chat = v.chat;
}
dispatch-AreValid c now (ServerEvent.delivery_receipt id conversation) s p v =
    if_keeps AreValid (is_empty id) s _ v (
      if_keeps AreValid (is_empty conversation) s _ v
        (record { contacts = v.contacts; chat = or_old-AreWhole conversation id s.chat v.chat }))
dispatch-AreValid c now ServerEvent.unknown_event s p v = v

module _ ⦃unicode : Unicode⦄ where
  -- Frames, each with the time of its arrival.
  unfoldable pub on_messages : Captured → List (Str × Frame) → Bool × Stores → Bool × Stores
  on_messages c [] s = s
  on_messages c ((now, f) ∷ fs) s = on_messages c fs (on_message c now f s)

  on_message-AreValid :
      (c : Captured) (now : Str) (f : Frame) (b : Bool) (s : Stores)
      → IsProperFrame f
      → AreValid s
      → AreValid (on_message c now f (b, s)).1
  unfolding on_message
  on_message-AreValid c now Frame.malformed b s p v = v
  on_message-AreValid c now (Frame.envelope members event) true s p v =
      dispatch-AreValid c now event s p v
  on_message-AreValid c now (Frame.envelope members event) false s p v =
      elim (Bool-cases (is_auth_ok members)) [
        | inl e ↦ rw (e, on_message) (record { contacts = v.contacts; chat = v.chat })
        | inr e ↦ rw (e, on_message) v
      ]

  -- Any sequence of frames, before or after `auth_ok`, keeps the keys of the contacts store unique
  -- and the conversations of the chat store whole, if each list of contacts or blocked users that
  -- arrives has no id twice.
  pub on_messages-AreValid :
      (c : Captured) (fs : List (Str × Frame)) (b : Bool) (s : Stores)
      → All (λ (f : Str × Frame). IsProperFrame f.1) fs
      → AreValid s
      → AreValid (on_messages c fs (b, s)).1
  unfolding on_messages
  on_messages-AreValid c [] b s ps v = v
  on_messages-AreValid c ((now, f) ∷ fs) b s ps v =
      let next = on_message c now f (b, s) in
      on_messages-AreValid c fs next.0 next.1 ps.1 (on_message-AreValid c now f b s ps.0 v)

  abbrev pub IsNoAuth : Frame → Type 0
  IsNoAuth Frame.malformed = Unit
  IsNoAuth (Frame.envelope members event) = is_auth_ok members ≡ false

  -- Until a frame says `auth_ok`, no frame changes any store.
  pub on_messages_before_auth :
      (c : Captured) (fs : List (Str × Frame)) (s : Stores)
      → All (λ (f : Str × Frame). IsNoAuth f.1) fs
      → on_messages c fs (false, s) ≡ (false, s)
  unfolding on_messages on_message
  on_messages_before_auth c [] s h = refl
  on_messages_before_auth c ((now, Frame.malformed) ∷ fs) s h = on_messages_before_auth c fs s h.1
  on_messages_before_auth c ((now, Frame.envelope members event) ∷ fs) s h =
      rw h.0 (on_messages_before_auth c fs s h.1)
