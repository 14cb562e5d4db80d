-- ===== src/Socket/Events.antt =====
-- What single events do to the stores together.
use winkd.Prelude.{
  ℕ, suc, ◌≡◌, refl, Bool, true, false, none, some, [], ◌∷◌, Str, str_eq, str_eq_refl, ap, ◌∙◌,
  str_eq_instance, if◌then◌else◌, arith,
}
use winkd.Prelude.Dict
use winkd.Prelude.Dict.{get-put_same}
use winkd.Prelude.Keyed.{has, first, without, has-without, has-append}
use winkd.Contacts.{Contact}
use winkd.Contacts.Store.{ContactsState, contact_id, invitation_id, blocked_id, inviter}
use winkd.Contacts.Store
use winkd.Contacts.Store.Laws.{first-add_accepted_contact}
use winkd.Chat.{ChatState, receive_message, close_conversation}
use winkd.Chat.Laws.{receive_message_twice}
use winkd.Messages.{Message}
use winkd.ServerEvents.{ServerEvent, AcceptedPayload, BlockedPayload}
use winkd.Socket.{
  Stores, Captured, deliver, counts_as_unread, dispatch, accepted_contact, blocked_user,
  remove_if_given, is_empty, is_id,
}

-- `unreadCounts[id] ?? 0`
abbrev pub unread : Str → ContactsState → ℕ
unread id s = Store.or_zero (Dict.get id s.unread_counts)

-- The message names itself, its conversation and its sender.
abbrev pub IsComplete : Message → Type 0
IsComplete m =
    (is_empty m.id ≡ false) × (is_empty m.conversation_id ≡ false) × (is_empty m.sender_id ≡ false)

unread-increment :
    (id : Str) (s : ContactsState) → unread id (Store.increment_unread id s) ≡ suc (unread id s)
unfolding Store.increment_unread
unread-increment id s = rw (get-put_same id (suc (unread id s)) s.unread_counts) refl

delivered_stores :
    (c : Captured) (m : Message) (s : Stores)
    → IsComplete m
    → counts_as_unread c m ≡ true
    → deliver c m s ≡ record s {
      chat = receive_message m s.chat;
      contacts = Store.increment_unread m.sender_id s.contacts;
    }
unfolding deliver
delivered_stores c m s (e1, e2, e3) u = rw (e1, e2, e3, u) refl

-- A complete message of another person whose conversation is not the captured one, if it arrives
-- twice, stands in the conversation as if it had arrived once, and counts twice as unread.
deliver_twice :
    (c : Captured) (m : Message) (s : Stores)
    → IsComplete m
    → counts_as_unread c m ≡ true
    → ((deliver c m (deliver c m s)).chat ≡ (deliver c m s).chat)
      × (unread m.sender_id (deliver c m (deliver c m s)).contacts
          ≡ suc (suc (unread m.sender_id s.contacts)))
deliver_twice c m s h u =
    rw (delivered_stores c m s h u, delivered_stores c m _ h u)
      (
        receive_message_twice m s.chat,
        unread-increment m.sender_id (Store.increment_unread m.sender_id s.contacts)
            ∙ ap suc (unread-increment m.sender_id s.contacts),
      )

request_removed :
    (request : Str) (s : ContactsState)
    → is_empty request ≡ false
    → has invitation_id request (remove_if_given (some request) s).pending_invitations ≡ false
unfolding Store.remove_pending_invitation
request_removed [] s full = cc
request_removed (x ∷ request) s full =
    rw
      (
        has-without invitation_id (x ∷ request) (x ∷ request) s.pending_invitations,
        str_eq_refl (x ∷ request),
      )
      refl

if_active :
    (b : Bool) (s : ChatState)
    → (if b then close_conversation s else s).active_conversation_id
      ≡ (if b then none else s.active_conversation_id)
unfolding close_conversation
if_active true s = refl
if_active false s = refl

-- A contact that is blocked is no longer among the contacts, stands among the blocked users, and the
-- request that the event names is gone; if its conversation is the captured one, none is active.
dispatch-contact_blocked :
    (c : Captured) (now : Str) (p : BlockedPayload) (request : Str) (s : Stores)
    → p.request_id ≡ some request
    → is_empty request ≡ false
    → let after : Stores = dispatch c now (ServerEvent.contact_blocked p) s in
      (has contact_id p.winkd_id after.contacts.contacts ≡ false)
      × (has blocked_id p.user_id after.contacts.blocked_users ≡ true)
      × (has invitation_id request after.contacts.pending_invitations ≡ false)
      × (after.chat.active_conversation_id ≡ (
          if is_id p.winkd_id c.active_conversation_id
          then none
          else s.chat.active_conversation_id))
unfolding dispatch Store.remove_contact Store.upsert_blocked_user Store.remove_pending_invitation
    blocked_user has
dispatch-contact_blocked c now p request s given full =
    let cleaned = remove_if_given p.request_id s.contacts in
    (
      rw (has-without contact_id p.winkd_id p.winkd_id cleaned.contacts, str_eq_refl p.winkd_id)
          refl,
      rw (has-append blocked_id p.user_id (without blocked_id p.user_id cleaned.blocked_users) _)
          (ground (arith, str_eq_refl p.user_id)),
      rw given (request_removed request s.contacts full),
      if_active (is_id p.winkd_id c.active_conversation_id) s.chat,
    )

pending-add_accepted_contact :
    (c : Contact) (s : ContactsState)
    → (Store.add_accepted_contact c s).pending_invitations ≡ s.pending_invitations
unfolding Store.add_accepted_contact
pending-add_accepted_contact c s = ground arith

-- A contact that accepted is then what its id shows, online and accepted, and no request from it is
-- pending any more.
dispatch-contact_accepted :
    (c : Captured) (now : Str) (p : AcceptedPayload) (s : Stores)
    → let after : Stores = dispatch c now (ServerEvent.contact_accepted p) s in
      (first contact_id p.winkd_id after.contacts.contacts ≡ some (accepted_contact p))
      × (has inviter p.winkd_id after.contacts.pending_invitations ≡ false)
unfolding dispatch accepted_contact Store.clear_pending_from_user
dispatch-contact_accepted c now p s = (
  first-add_accepted_contact (accepted_contact p)
      (Store.clear_pending_from_user p.winkd_id s.contacts),
  rw (pending-add_accepted_contact (accepted_contact p) _) (
      rw
        (
          has-without inviter p.winkd_id p.winkd_id s.contacts.pending_invitations,
          str_eq_refl p.winkd_id,
        )
        refl),
)

-- A complete message of another person in the conversation that is open now counts as unread, if
-- another conversation or none was open when the connection was made.
deliver_in_view :
    (c : Captured) (m : Message) (s : Stores)
    → IsComplete m
    → s.chat.active_conversation_id ≡ some m.conversation_id
    → str_eq m.sender_id c.own_winkd_id ≡ false
    → is_id m.conversation_id c.active_conversation_id ≡ false
    → unread m.sender_id (deliver c m s).contacts ≡ suc (unread m.sender_id s.contacts)
deliver_in_view c m s h now other before =
    let counts : counts_as_unread c m ≡ true = rw (other, before) refl in
    rw (delivered_stores c m s h counts) (unread-increment m.sender_id s.contacts)
