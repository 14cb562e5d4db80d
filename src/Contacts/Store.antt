-- ===== src/Contacts/Store.antt =====
-- apps/web/src/stores/contactsStore.ts: each action as a function on the state.
pub mod Laws
use winkd.Prelude.{
  ℕ, suc, Option, none, some, List, [], ◌∷◌, ◌++◌, Str, str_eq_instance, if◌then◌else◌,
}
use winkd.Prelude.Dict
use winkd.Prelude.Dict.{Dict}
use winkd.Prelude.Keyed.{without, has, change}
use winkd.Contacts.{Contact, UserStatus, ContactRequestStatus}

pub record PendingInvitation : Type 0 where
  pub request_id : Str
  pub from_winkd_id : Str
  pub from_display_name : Str
  pub from_avatar_data : Option Str

pub record BlockedUser : Type 0 where
  pub user_id : Str
  pub winkd_id : Str
  pub display_name : Str
  pub avatar_data : Option Str
  pub blocked_at : Str

pub record ContactsState : Type 0 where
  pub contacts : List Contact
  pub unread_counts : Dict Str ℕ
  pub pending_invitations : List PendingInvitation
  pub blocked_users : List BlockedUser

abbrev pub initial : ContactsState
initial = record { contacts = []; unread_counts = []; pending_invitations = []; blocked_users = [] }

-- `Partial<Contact>`: the members that are given.
pub record ContactPatch : Type 0 where
  pub id : Option Str
  pub winkd_id : Option Str
  pub display_name : Option Str
  pub mood_message : Option Str
  pub status : Option UserStatus
  pub avatar_data : Option (Option Str)
  pub request_status : Option ContactRequestStatus
  pub unread_count : Option ℕ
  pub last_message_at : Option (Option Str)

abbrev pub given {ℓ} : {A : Type ℓ} → Option A → A → A
given none old = old
given (some new) old = new

-- `{ ...c, ...partial }`
unfoldable pub apply_patch : ContactPatch → Contact → Contact
apply_patch p c = record {
  id = given p.id c.id;
  winkd_id = given p.winkd_id c.winkd_id;
  display_name = given p.display_name c.display_name;
  mood_message = given p.mood_message c.mood_message;
  status = given p.status c.status;
  avatar_data = given p.avatar_data c.avatar_data;
  request_status = given p.request_status c.request_status;
  unread_count = given p.unread_count c.unread_count;
  last_message_at = given p.last_message_at c.last_message_at;
}

abbrev pub contact_id : Contact → Str
contact_id c = c.id

abbrev pub invitation_id : PendingInvitation → Str
invitation_id i = i.request_id

abbrev pub inviter : PendingInvitation → Str
inviter i = i.from_winkd_id

abbrev pub blocked_id : BlockedUser → Str
blocked_id u = u.user_id

unfoldable pub set_contacts : List Contact → ContactsState → ContactsState
set_contacts contacts s = record s { contacts = contacts }

unfoldable pub remove_contact : Str → ContactsState → ContactsState
remove_contact id s = record s { contacts = without contact_id id s.contacts }

unfoldable pub update_contact : Str → ContactPatch → ContactsState → ContactsState
update_contact id partial s = record s {
  contacts = change contact_id id (apply_patch partial) s.contacts;
}

unfoldable pub update_contact_status : Str → UserStatus → ContactsState → ContactsState
update_contact_status id status s = record s {
  contacts = change contact_id id (λ c. record c { status = status }) s.contacts;
}

-- `{ ...c, ...contact }` has every member of `contact`.
unfoldable pub add_accepted_contact : Contact → ContactsState → ContactsState
add_accepted_contact contact s =
    if has contact_id contact.id s.contacts
    then record s { contacts = change contact_id contact.id (λ c. contact) s.contacts }
    else record s { contacts = s.contacts ++ contact ∷ [] }

abbrev pub or_zero : Option ℕ → ℕ
or_zero none = 0
or_zero (some n) = n

-- `id` is not the name of a member that every object inherits: no count is found under it.
unfoldable pub increment_unread : Str → ContactsState → ContactsState
increment_unread id s = record s {
  unread_counts = Dict.put id (suc (or_zero (Dict.get id s.unread_counts))) s.unread_counts;
}

unfoldable pub clear_unread : Str → ContactsState → ContactsState
clear_unread id s = record s { unread_counts = Dict.remove id s.unread_counts }

unfoldable pub upsert_pending_invitation : PendingInvitation → ContactsState → ContactsState
upsert_pending_invitation invitation s = record s {
  pending_invitations =
      without invitation_id invitation.request_id s.pending_invitations ++ invitation ∷ [];
}

unfoldable pub remove_pending_invitation : Str → ContactsState → ContactsState
remove_pending_invitation request_id s = record s {
  pending_invitations = without invitation_id request_id s.pending_invitations;
}

unfoldable pub clear_pending_from_user : Str → ContactsState → ContactsState
clear_pending_from_user winkd_id s = record s {
  pending_invitations = without inviter winkd_id s.pending_invitations;
}

unfoldable pub set_blocked_users : List BlockedUser → ContactsState → ContactsState
set_blocked_users blocked s = record s { blocked_users = blocked }

unfoldable pub upsert_blocked_user : BlockedUser → ContactsState → ContactsState
upsert_blocked_user blocked s = record s {
  blocked_users = without blocked_id blocked.user_id s.blocked_users ++ blocked ∷ [];
}

unfoldable pub remove_blocked_user : Str → ContactsState → ContactsState
remove_blocked_user user_id s = record s {
  blocked_users = without blocked_id user_id s.blocked_users;
}
