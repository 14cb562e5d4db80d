-- ===== src/Contacts/Store/Laws.antt =====
-- Uniqueness of keys in the contacts store, under any sequence of its actions.
use winkd.Prelude.{
  ◌≤◌, ◌≡◌, refl, false, none, some, List, [], ◌∷◌, ◌++◌, Str, str_eq, str_eq_iff, if◌then◌else◌,
  arith, All, Bool-cases, inl, inr, str_eq_instance,
}
use winkd.Prelude.Keyed.{
  without, has, change, count, first, count-append, count-without, count-has, count-change,
  first-append, first-without, has-without, first-has, first-change,
}
use winkd.Contacts.{Contact, UserStatus}
use winkd.Contacts.Store.{
  ContactsState, ContactPatch, PendingInvitation, BlockedUser, contact_id, invitation_id, inviter,
  blocked_id, apply_patch, or_zero,
}
use winkd.Contacts.Store

-- No key occurs twice.
abbrev pub Unique : {A : Type 0} → (A → Str) → List A → Type 0
Unique key xs = (k : Str) → count key k xs ≤ 1

pub record IsConsistent (s : ContactsState) : Type 0 where
  pub contacts : Unique contact_id s.contacts
  pub invitations : Unique invitation_id s.pending_invitations
  pub blocked : Unique blocked_id s.blocked_users

-- A call of one of the store's actions.
pub data Call : Type 0 where
  set_contacts : List Contact → Call
  remove_contact : Str → Call
  update_contact : Str → ContactPatch → Call
  update_contact_status : Str → UserStatus → Call
  add_accepted_contact : Contact → Call
  increment_unread : Str → Call
  clear_unread : Str → Call
  upsert_pending_invitation : PendingInvitation → Call
  remove_pending_invitation : Str → Call
  clear_pending_from_user : Str → Call
  set_blocked_users : List BlockedUser → Call
  upsert_blocked_user : BlockedUser → Call
  remove_blocked_user : Str → Call

unfoldable pub call : Call → ContactsState → ContactsState
call (Call.set_contacts cs) s = Store.set_contacts cs s
call (Call.remove_contact id) s = Store.remove_contact id s
call (Call.update_contact id partial) s = Store.update_contact id partial s
call (Call.update_contact_status id status) s = Store.update_contact_status id status s
call (Call.add_accepted_contact c) s = Store.add_accepted_contact c s
call (Call.increment_unread id) s = Store.increment_unread id s
call (Call.clear_unread id) s = Store.clear_unread id s
call (Call.upsert_pending_invitation i) s = Store.upsert_pending_invitation i s
call (Call.remove_pending_invitation id) s = Store.remove_pending_invitation id s
call (Call.clear_pending_from_user id) s = Store.clear_pending_from_user id s
call (Call.set_blocked_users us) s = Store.set_blocked_users us s
call (Call.upsert_blocked_user u) s = Store.upsert_blocked_user u s
call (Call.remove_blocked_user id) s = Store.remove_blocked_user id s

unfoldable pub run : List Call → ContactsState → ContactsState
unfolding call
run [] s = s
run (c ∷ cs) s = run cs (call c s)

-- A list that replaces a part of the state has no key twice, and a patch leaves the id alone.
abbrev pub IsAllowed : Call → Type 0
IsAllowed (Call.set_contacts cs) = Unique contact_id cs
IsAllowed (Call.update_contact id partial) = partial.id ≡ none
IsAllowed (Call.set_blocked_users us) = Unique blocked_id us
IsAllowed _ = Unit

module _ {A : Type 0} (key : A → Str) where
  without-Unique : (k : Str) (xs : List A) → Unique key xs → Unique key (without key k xs)
  without-Unique k xs h j = ground (arith, count-without key k j xs, h j)

  upsert-Unique :
      (x : A) (xs : List A) → Unique key xs → Unique key (without key (key x) xs ++ x ∷ [])
  unfolding count
  upsert-Unique x xs h j =
      rw (count-append key j (without key (key x) xs) (x ∷ []))
        (ground (arith, count-without key (key x) j xs, h j))

  change-Unique :
      (k : Str) (f : A → A) (xs : List A)
      → ((x : A) → key x ≡ k → key (f x) ≡ k)
      → Unique key xs
      → Unique key (change key k f xs)
  change-Unique k f xs keeps h j = omega (arith, count-change key k j f xs keeps, h j)

  add-Unique :
      (x : A) (xs : List A) → has key (key x) xs ≡ false → Unique key xs → Unique key (xs ++ x ∷ [])
  unfolding count
  add-Unique x xs new h j =
      rw (count-append key j xs (x ∷ []))
        (ground (arith, count-has key (key x) xs new, h j, str_eq_iff (key x) j))

count-without_le :
    {A : Type 0} (key other : A → Str) (j k : Str) (xs : List A)
    → count key j (without other k xs) ≤ count key j xs
unfolding count without
count-without_le key other j k [] = omega arith
count-without_le key other j k (x ∷ xs) = ground (arith, count-without_le key other j k xs)

add_accepted_contact-IsConsistent :
    (c : Contact) (s : ContactsState)
    → IsConsistent s
    → IsConsistent (Store.add_accepted_contact c s)
unfolding Store.add_accepted_contact
add_accepted_contact-IsConsistent c s h = elim (Bool-cases (has contact_id c.id s.contacts)) [
  | inl old ↦ rw old (record {
    contacts = change-Unique contact_id c.id (λ _. c) s.contacts (λ x e. refl) h.contacts;
    invitations = h.invitations;
    blocked = h.blocked;
  })
  | inr new ↦ rw new (record {
    contacts = add-Unique contact_id c s.contacts new h.contacts;
    invitations = h.invitations;
    blocked = h.blocked;
  })
]

pub call-IsConsistent :
    (c : Call) (s : ContactsState) → IsAllowed c → IsConsistent s → IsConsistent (call c s)
unfolding call Store.set_contacts Store.remove_contact Store.update_contact
    Store.update_contact_status Store.increment_unread Store.clear_unread
    Store.upsert_pending_invitation Store.remove_pending_invitation Store.clear_pending_from_user
    Store.set_blocked_users Store.upsert_blocked_user Store.remove_blocked_user apply_patch
call-IsConsistent (Call.set_contacts cs) s a h = record {
  contacts = a;
  invitations = h.invitations;
  blocked = h.blocked;
}
call-IsConsistent (Call.remove_contact id) s a h = record {
  contacts = without-Unique contact_id id s.contacts h.contacts;
  invitations = h.invitations;
  blocked = h.blocked;
}
call-IsConsistent (Call.update_contact id partial) s a h = record {
  contacts =
      change-Unique contact_id id (apply_patch partial) s.contacts (λ x e. rw a e) h.contacts;
  invitations = h.invitations;
  blocked = h.blocked;
}
call-IsConsistent (Call.update_contact_status id status) s a h = record {
  contacts =
      change-Unique contact_id id (λ c. record c { status = status }) s.contacts (λ x e. e)
        h.contacts;
  invitations = h.invitations;
  blocked = h.blocked;
}
call-IsConsistent (Call.add_accepted_contact c) s a h = add_accepted_contact-IsConsistent c s h
call-IsConsistent (Call.increment_unread id) s a h = record {
  contacts = h.contacts;
  invitations = h.invitations;
  blocked = h.blocked;
}
call-IsConsistent (Call.clear_unread id) s a h = record {
  contacts = h.contacts;
  invitations = h.invitations;
  blocked = h.blocked;
}
call-IsConsistent (Call.upsert_pending_invitation i) s a h = record {
  contacts = h.contacts;
  invitations = upsert-Unique invitation_id i s.pending_invitations h.invitations;
  blocked = h.blocked;
}
call-IsConsistent (Call.remove_pending_invitation id) s a h = record {
  contacts = h.contacts;
  invitations = without-Unique invitation_id id s.pending_invitations h.invitations;
  blocked = h.blocked;
}
call-IsConsistent (Call.clear_pending_from_user id) s a h = record {
  contacts = h.contacts;
  invitations = λ j.
      omega
        (arith, count-without_le invitation_id inviter j id s.pending_invitations, h.invitations j);
  blocked = h.blocked;
}
call-IsConsistent (Call.set_blocked_users us) s a h = record {
  contacts = h.contacts;
  invitations = h.invitations;
  blocked = a;
}
call-IsConsistent (Call.upsert_blocked_user u) s a h = record {
  contacts = h.contacts;
  invitations = h.invitations;
  blocked = upsert-Unique blocked_id u s.blocked_users h.blocked;
}
call-IsConsistent (Call.remove_blocked_user id) s a h = record {
  contacts = h.contacts;
  invitations = h.invitations;
  blocked = without-Unique blocked_id id s.blocked_users h.blocked;
}

-- From a state in which no contact id, no request id and no blocked user's id occurs twice, any
-- sequence of actions keeps it so, if each list that replaces the contacts or the blocked users
-- has no id twice and no patch of a contact sets its id.
pub run-IsConsistent :
    (cs : List Call) (s : ContactsState)
    → All IsAllowed cs
    → IsConsistent s
    → IsConsistent (run cs s)
unfolding run
run-IsConsistent [] s a h = h
run-IsConsistent (c ∷ cs) s a h = run-IsConsistent cs (call c s) a.1 (call-IsConsistent c s a.0 h)

-- After an invitation is upserted, its request id shows that invitation, and every other request
-- id shows what it did before.
first-upsert_pending_invitation :
    (i : PendingInvitation) (s : ContactsState) (j : Str)
    → first invitation_id j (Store.upsert_pending_invitation i s).pending_invitations
      ≡ (if str_eq i.request_id j then some i else first invitation_id j s.pending_invitations)
unfolding Store.upsert_pending_invitation first
first-upsert_pending_invitation i s j =
    rw
      (
        first-append invitation_id j (without invitation_id i.request_id s.pending_invitations)
            (i ∷ []),
        first-without invitation_id i.request_id j s.pending_invitations,
        has-without invitation_id i.request_id j s.pending_invitations,
      )
      (ground (arith, first-has invitation_id j s.pending_invitations))

-- An accepted contact is then what its id shows.
pub first-add_accepted_contact :
    (c : Contact) (s : ContactsState)
    → first contact_id c.id (Store.add_accepted_contact c s).contacts ≡ some c
unfolding Store.add_accepted_contact first
first-add_accepted_contact c s = elim (Bool-cases (has contact_id c.id s.contacts)) [
  | inl old ↦
      rw (old, Store.add_accepted_contact) (first-change contact_id c.id c s.contacts refl old)
  | inr new ↦
      rw (new, Store.add_accepted_contact, first-append contact_id c.id s.contacts (c ∷ []), new)
        (ground (arith, str_eq_iff c.id c.id))
]
