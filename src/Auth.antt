-- ===== src/Auth.antt =====
-- apps/web/src/stores/authStore.ts and `OwnProfile` of packages/types/src/user.ts. The middleware
-- `persist`, which keeps the state in the browser's storage, belongs to zustand.
pub mod Laws
use winkd.Prelude.{ℕ, Bool, false, Option, none, some, List, [], Str}
use winkd.Contacts.{UserStatus}
use winkd.Contacts.Store.{given}

pub record OwnProfile : Type 0 where
  pub winkd_id : Str
  pub display_name : Str
  pub mood_message : Str
  pub status : UserStatus
  pub avatar_data : Option Str
  pub session_token : Str

-- `Partial<OwnProfile>`: the members that are given.
pub record ProfilePatch : Type 0 where
  pub winkd_id : Option Str
  pub display_name : Option Str
  pub mood_message : Option Str
  pub status : Option UserStatus
  pub avatar_data : Option (Option Str)
  pub session_token : Option Str

pub data Tier : Type 0 where
  free plus : Tier

pub record SupporterState : Type 0 where
  pub tier : Tier
  pub purchased_extras : List Str
  pub buddy_cap : Option ℕ
  pub buddy_used : ℕ
  pub group_chat_unlocked : Bool
  pub supporter_expires_at : Option Str

-- `Partial<SupporterState>`: the members that are given.
pub record SupporterPatch : Type 0 where
  pub tier : Option Tier
  pub purchased_extras : Option (List Str)
  pub buddy_cap : Option (Option ℕ)
  pub buddy_used : Option ℕ
  pub group_chat_unlocked : Option Bool
  pub supporter_expires_at : Option (Option Str)

pub record SignedIn : Type 0 where
  pub token : Str
  pub profile : OwnProfile
  pub supporter : SupporterState

-- The member `session`: `none` is null.
abbrev pub AuthState : Type 0
AuthState = Option SignedIn

abbrev pub default_supporter_state : SupporterState
default_supporter_state = record {
  tier = free;
  purchased_extras = [];
  buddy_cap = none;
  buddy_used = 0;
  group_chat_unlocked = false;
  supporter_expires_at = none;
}

unfoldable pub login : Str → OwnProfile → AuthState → AuthState
login token profile s =
    some (record { token = token; profile = profile; supporter = default_supporter_state })

unfoldable pub logout : AuthState → AuthState
logout s = none

-- `{ ...profile, ...partial }`
unfoldable pub patch_profile : ProfilePatch → OwnProfile → OwnProfile
patch_profile p profile = record {
  winkd_id = given p.winkd_id profile.winkd_id;
  display_name = given p.display_name profile.display_name;
  mood_message = given p.mood_message profile.mood_message;
  status = given p.status profile.status;
  avatar_data = given p.avatar_data profile.avatar_data;
  session_token = given p.session_token profile.session_token;
}

unfoldable pub update_profile : ProfilePatch → AuthState → AuthState
update_profile partial none = none
update_profile partial (some session) =
    some (record session { profile = patch_profile partial session.profile })

-- `{ ...supporter, ...partial }`
unfoldable pub patch_supporter : SupporterPatch → SupporterState → SupporterState
patch_supporter p supporter = record {
  tier = given p.tier supporter.tier;
  purchased_extras = given p.purchased_extras supporter.purchased_extras;
  buddy_cap = given p.buddy_cap supporter.buddy_cap;
  buddy_used = given p.buddy_used supporter.buddy_used;
  group_chat_unlocked = given p.group_chat_unlocked supporter.group_chat_unlocked;
  supporter_expires_at = given p.supporter_expires_at supporter.supporter_expires_at;
}

unfoldable pub set_supporter_state : SupporterPatch → AuthState → AuthState
set_supporter_state partial none = none
set_supporter_state partial (some session) =
    some (record session { supporter = patch_supporter partial session.supporter })
