-- ===== src/Contacts/Manager.antt =====
-- `ContactManager` of packages/core/src/contacts/index.ts.
pub mod Groups
pub mod QrPayload
use winkd.Prelude.{
  Bool, true, false, ◌||◌, not, Option, List, [], ◌∷◌, Str, str_eq_instance, if◌then◌else◌,
}
use winkd.Prelude.Dict
use winkd.Prelude.Dict.{Dict}
use winkd.Contacts.{Contact, UserStatus, online, away, busy, accepted, pending_inbound}

abbrev pub Contacts : Type 0
Contacts = Dict Str Contact

unfoldable pub add_or_update : Contact → Contacts → Contacts
add_or_update contact s = Dict.put contact.id contact s

unfoldable pub remove : Str → Contacts → Contacts
remove id s = Dict.remove id s

unfoldable pub get : Str → Contacts → Option Contact
get id s = Dict.get id s

pub values : Contacts → List Contact
values [] = []
values ((k, c) ∷ s) = c ∷ values s

-- `xs.filter(p)`
pub filter : (Contact → Bool) → List Contact → List Contact
filter p [] = []
filter p (c ∷ cs) = let rest = filter p cs in if p c then c ∷ rest else rest

abbrev pub is_accepted : Contact → Bool
is_accepted c = elim c.request_status [ accepted ↦ true | _ ↦ false ]

abbrev pub is_pending_inbound : Contact → Bool
is_pending_inbound c = elim c.request_status [ pending_inbound ↦ true | _ ↦ false ]

unfoldable pub get_all : Contacts → List Contact
unfolding values filter
get_all s = filter is_accepted (values s)

pub record GroupedContacts : Type 0 where
  pub online : List Contact
  pub away : List Contact
  pub busy : List Contact
  pub offline : List Contact

abbrev pub says_online : UserStatus → Bool
says_online status = elim status [ online ↦ true | _ ↦ false ]

abbrev pub says_away : UserStatus → Bool
says_away status = elim status [ away ↦ true | _ ↦ false ]

abbrev pub says_busy : UserStatus → Bool
says_busy status = elim status [ busy ↦ true | _ ↦ false ]

abbrev pub is_online : Contact → Bool
is_online c = says_online c.status

abbrev pub is_away : Contact → Bool
is_away c = says_away c.status

abbrev pub is_busy : Contact → Bool
is_busy c = says_busy c.status

-- `activeStatuses.includes(c.status)`
abbrev pub is_active : Contact → Bool
is_active c = is_online c || is_away c || is_busy c

unfoldable pub get_grouped : Contacts → GroupedContacts
unfolding get_all filter
get_grouped s =
    let accepted_contacts = get_all s in
    record {
      online = filter is_online accepted_contacts;
      away = filter is_away accepted_contacts;
      busy = filter is_busy accepted_contacts;
      offline = filter (λ c. not (is_active c)) accepted_contacts;
    }

unfoldable pub get_pending_inbound : Contacts → List Contact
unfolding values filter
get_pending_inbound s = filter is_pending_inbound (values s)
