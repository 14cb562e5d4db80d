-- ===== src/Contacts/Manager/Groups.antt =====
-- `getGrouped` of packages/core/src/contacts/index.ts divides what `getAll` returns.
use mathlib.Core.List.{Perm, perm_middle}
use mathlib.Core.List.Perm
use winkd.Prelude.{not, ◌||◌, List, [], ◌∷◌, ◌++◌, if◌then◌else◌}
use winkd.Contacts.{Contact, UserStatus, online, away, busy, invisible}
use winkd.Contacts.Manager.{
  Contacts, filter, is_online, is_away, is_busy, is_active, says_online, says_away, says_busy,
  get_all, get_grouped, GroupedContacts,
}

-- The groups, one after the other.
unfoldable pub all_groups : GroupedContacts → List Contact
all_groups g = g.online ++ (g.away ++ (g.busy ++ g.offline))

division : List Contact → List Contact
unfolding filter
division cs =
    filter is_online cs
    ++ (filter is_away cs ++ (filter is_busy cs ++ filter (λ c. not (is_active c)) cs))

-- Where a contact goes by its status.
place-Perm :
    (status : UserStatus) (c : Contact) (on aw bu off cs : List Contact)
    → Perm (on ++ (aw ++ (bu ++ off))) cs
    → Perm
        ((if says_online status then c ∷ on else on)
          ++ ((if says_away status then c ∷ aw else aw)
              ++ ((if says_busy status then c ∷ bu else bu)
                  ++ (if not (says_online status || says_away status || says_busy status)
                      then c ∷ off
                      else off))))
        (c ∷ cs)
place-Perm online c on aw bu off cs h = Perm.cons c h
place-Perm away c on aw bu off cs h = Perm.trans (perm_middle on _) (Perm.cons c h)
place-Perm busy c on aw bu off cs h =
    let up = Perm.trans (Perm.append_left on (perm_middle aw _)) (perm_middle on _) in
    Perm.trans up (Perm.cons c h)
place-Perm invisible c on aw bu off cs h =
    let past_busy = Perm.append_left on (Perm.append_left aw (perm_middle bu off)) in
    let up = Perm.trans (Perm.append_left on (perm_middle aw _)) (perm_middle on _) in
    Perm.trans (Perm.trans past_busy up) (Perm.cons c h)

division-Perm : (cs : List Contact) → Perm (division cs) cs
unfolding division filter
division-Perm [] = Perm.nil
division-Perm (c ∷ cs) =
    place-Perm c.status c (filter is_online cs) (filter is_away cs) (filter is_busy cs)
      (filter (λ c. not (is_active c)) cs) cs (division-Perm cs)

-- The four groups together are the accepted contacts, each as often as among them.
pub get_grouped-Perm : (s : Contacts) → Perm (all_groups (get_grouped s)) (get_all s)
unfolding get_grouped all_groups division
get_grouped-Perm s = division-Perm (get_all s)
