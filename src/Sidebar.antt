-- ===== src/Sidebar.antt =====
-- apps/web/src/components/Sidebar.tsx: what the buttons of the contact list do, and how contacts are
-- added. `encodeURIComponent` and `decodeURIComponent` of the browser are a parameter.
pub mod Qr
use winkd.Prelude.{
  ℕ, zero, suc, ◌+◌, ◌%◌, Bool, true, false, not, ◌&&◌, ◌||◌, Option, none, some, List, [], ◌∷◌,
  ◌++◌, map, Str, lit, str_eq, leb, ◌==◌, get_elem?, drop, length, if◌then◌else◌,
}
use winkd.Text.{trim, starts_with, includes, Unicode}
use winkd.Contacts.{
  Contact, UserStatus, online, away, busy, invisible, ContactRequestStatus, accepted,
  pending_outbound, pending_inbound, blocked,
}
use winkd.Contacts.Store.{ContactsState, clear_unread, remove_pending_invitation}
use winkd.Chat.{ChatState, open_conversation}
use winkd.Auth.{AuthState, SignedIn, ProfilePatch, update_profile}

-- What is sent to the server.
pub data Command : Type 0 where
  set_status : UserStatus → Command
  set_display_name set_mood : Str → Command
  accept_contact reject_contact block_contact : (request_id : Str) → Command
  list_blocked : Command
  unblock_contact : (user_id : Str) → Command
  add_contact : (winkd_id : Str) → Command

abbrev status_cycle : List UserStatus
status_cycle = online ∷ away ∷ busy ∷ invisible ∷ []

abbrev same_status : UserStatus → UserStatus → Bool
same_status online online = true
same_status away away = true
same_status busy busy = true
same_status invisible invisible = true
same_status _ _ = false

-- `indexOf`, for an element that is there.
abbrev index_of : UserStatus → List UserStatus → ℕ
index_of s [] = 0
index_of s (t ∷ ts) = if same_status t s then 0 else suc (index_of s ts)

abbrev or_status : UserStatus → Option UserStatus → UserStatus
or_status s none = s
or_status s (some t) = t

unfoldable pub next_status : UserStatus → UserStatus
next_status s =
    or_status s (get_elem? status_cycle ((index_of s status_cycle + 1) % length status_cycle))

-- `UI_GROUPS`
pub data UiGroup : Type 0 where
  group_online group_away group_offline : UiGroup

unfoldable pub in_group : UiGroup → Contact → Bool
in_group group_online c = same_status c.status online
in_group group_away c = same_status c.status away || same_status c.status busy
in_group group_offline c = same_status c.status invisible

abbrev no_patch : ProfilePatch
no_patch = record {
  winkd_id = none;
  display_name = none;
  mood_message = none;
  status = none;
  avatar_data = none;
  session_token = none;
}

unfoldable pub cycle_status : SignedIn → AuthState × List Command
cycle_status session =
    let next = next_status session.profile.status in
    (
      update_profile (record no_patch { status = some next }) (some session),
      Command.set_status next ∷ [],
    )

unfoldable pub handle_profile_save :
    (display_name mood_message : Str) → SignedIn → AuthState × List Command
handle_profile_save display_name mood_message session = (
  update_profile
      (record no_patch { display_name = some display_name; mood_message = some mood_message })
      (some session),
  Command.set_display_name display_name ∷ Command.set_mood mood_message ∷ [],
)

unfoldable pub handle_contact_click :
    Contact → ChatState × ContactsState → ChatState × ContactsState
handle_contact_click c (chat, contacts) = (open_conversation c.id chat, clear_unread c.id contacts)

abbrev has_status : ContactRequestStatus → ContactRequestStatus → Bool
has_status accepted accepted = true
has_status pending_outbound pending_outbound = true
has_status pending_inbound pending_inbound = true
has_status blocked blocked = true
has_status _ _ = false

abbrev only : (Contact → Bool) → List Contact → List Contact
only test [] = []
only test (c ∷ cs) = if test c then c ∷ only test cs else only test cs

unfoldable pub handle_approve : Str → ContactsState → ContactsState × List Command
handle_approve id s = (remove_pending_invitation id s, Command.accept_contact id ∷ [])

unfoldable pub handle_reject : Str → ContactsState → ContactsState × List Command
handle_reject id s = (remove_pending_invitation id s, Command.reject_contact id ∷ [])

unfoldable pub handle_block : Str → ContactsState → ContactsState × List Command
handle_block id s = (remove_pending_invitation id s, Command.block_contact id ∷ [])

-- Whether the blocked users are shown after that, and what is sent.
unfoldable pub open_blocked_users : Bool → Bool × List Command
open_blocked_users shown = (true, Command.list_blocked ∷ [])

unfoldable pub handle_unblock : Str → List Command
handle_unblock user_id = Command.unblock_contact user_id ∷ []

abbrev is_digit : ℕ → Bool
is_digit c = leb 48 c && leb c 57

-- `\d{4}$`
abbrev is_four_digits : Str → Bool
is_four_digits (a ∷ b ∷ c ∷ d ∷ []) = is_digit a && is_digit b && is_digit c && is_digit d
is_four_digits _ = false

-- `[^#]*#\d{4}$`
unfoldable pub is_id_end : Str → Bool
is_id_end [] = false
is_id_end (c ∷ s) = let rest = is_id_end s in if c == 35 then is_four_digits s else rest

-- `/^[^#]+#\d{4}$/`
unfoldable pub is_winkd_id : Str → Bool
is_winkd_id [] = false
is_winkd_id (c ∷ s) = not (c == 35) && is_id_end s

pub data AddContactMode : Type 0 where
  by_id by_qr : AddContactMode

-- The state of the dialog that adds a contact.
pub record AddContact : Type 0 where
  pub shown : Bool
  pub mode : AddContactMode
  pub input : Str
  pub qr_scan_input : Str
  pub qr_scan_hint : Str
  pub error : Str
  pub is_sent : Bool

unfoldable pub close_add_contact : AddContact → AddContact
close_add_contact d = record {
  shown = false;
  mode = by_id;
  input = [];
  qr_scan_input = [];
  qr_scan_hint = [];
  error = [];
  is_sent = false;
}

unfoldable pub send_contact_request : Str → AddContact → AddContact × List Command
send_contact_request candidate d =
    if is_winkd_id (trim candidate)
    then (record d { is_sent = true; error = [] }, Command.add_contact (trim candidate) ∷ [])
    else (record d { error = lit "Must be in format username#1234" }, [])

unfoldable pub handle_add_contact : AddContact → AddContact × List Command
handle_add_contact d = send_contact_request d.input d

-- `decode_uri_component` throws on a malformed text: then it is `none`.
pub record UriCodec : Type 0 where
  pub encode_uri_component : Str → Str
  pub decode_uri_component : Str → Option Str

abbrev pub qr_prefix : Str
qr_prefix = lit "winkd://add/"

-- The Winkd ID that is read, or null; or it throws.
pub data Parsed : Type 0 where
  winkd_id : Str → Parsed
  null : Parsed
  throws : Parsed

abbrev pub decoded_id : Option Str → Parsed
decoded_id none = Parsed.throws
decoded_id (some s) = if is_winkd_id s then Parsed.winkd_id s else Parsed.null

module _ ⦃tables : Unicode⦄ ⦃uri : UriCodec⦄ where
  -- The parsing of a text that is trimmed.
  unfoldable pub parse_trimmed : Str → Parsed
  parse_trimmed [] = Parsed.null
  parse_trimmed (c ∷ s) =
      if is_winkd_id (c ∷ s)
      then Parsed.winkd_id (c ∷ s)
      else if starts_with qr_prefix (tables.to_lower_case (c ∷ s))
      then decoded_id (uri.decode_uri_component (drop 12 (c ∷ s)))
      else Parsed.null

  unfoldable pub parse_qr_to_winkd_id : Str → Parsed
  parse_qr_to_winkd_id raw = parse_trimmed (trim raw)

  -- The dialog after the payload was parsed; it stays as it is if that throws.
  abbrev pub after_parsing : Parsed → AddContact → AddContact
  after_parsing Parsed.throws d = d
  after_parsing Parsed.null d = record d {
    error = lit "That QR payload is invalid. Expected winkd://add/username%231234";
    qr_scan_hint = [];
  }
  after_parsing (Parsed.winkd_id id) d = record d {
    input = id;
    qr_scan_hint = lit "Parsed Winkd ID: " ++ id;
    error = [];
    mode = by_id;
  }

  unfoldable pub handle_use_qr_payload : AddContact → AddContact
  handle_use_qr_payload d = after_parsing (parse_qr_to_winkd_id d.qr_scan_input) d

  unfoldable pub my_qr_data : Str → Str
  my_qr_data id = qr_prefix ++ uri.encode_uri_component id

  -- A search looks for the display name.
  unfoldable pub is_searched : Str → Contact → Bool
  is_searched q c = includes (tables.to_lower_case q) (tables.to_lower_case c.display_name)

  abbrev searched : Str → List Contact → List Contact
  searched [] cs = cs
  searched (c ∷ q) cs = only (λ d. is_searched (c ∷ q) d) cs

  -- `filteredAccepted` and `filteredPendingOut`
  unfoldable pub filtered_accepted : Str → List Contact → List Contact
  filtered_accepted q cs = searched q (only (λ c. has_status c.request_status accepted) cs)

  unfoldable pub filtered_pending_out : Str → List Contact → List Contact
  filtered_pending_out q cs =
      searched q (only (λ c. has_status c.request_status pending_outbound) cs)
