-- ===== src/Login.antt =====
-- apps/web/src/pages/LoginPage.tsx: the forms that sign a person in, with the second factor.
-- Nothing is typed or clicked between a request and its reply.
pub mod Laws
use winkd.Prelude.{
  ℕ, Bool, true, false, not, ◌&&◌, ◌||◌, Option, none, some, List, [], ◌∷◌, Str, lit, str_eq,
  if◌then◌else◌,
}
use winkd.Text.{trim, includes, is_space}
use winkd.Contacts.{UserStatus, online}
use winkd.Auth.{OwnProfile, AuthState, login}

pub data Mode : Type 0 where
  login_mode register_mode totp_mode : Mode

-- `auth` is the state of the auth store.
pub record Page : Type 0 where
  pub mode : Mode
  pub username : Str
  pub email : Str
  pub password : Str
  pub error : Str
  pub is_loading : Bool
  pub challenge_token : Str
  pub totp_code : Str
  pub auth : AuthState

abbrev pub fresh_page : Page
fresh_page = record {
  mode = login_mode;
  username = [];
  email = [];
  password = [];
  error = [];
  is_loading = false;
  challenge_token = [];
  totp_code = [];
  auth = none;
}

-- What an accepted reply says. The members that a reply without a challenge has to have are given.
pub record LoginData : Type 0 where
  pub session_token : Str
  pub totp_required : Bool
  pub challenge_token : Option Str
  pub winkd_id : Str
  pub display_name : Str
  pub mood_message : Option Str
  pub avatar_data : Option Str

-- `no_answer`: the request fails, or what it answers cannot be read.
pub data Reply : Type 0 where
  no_answer : Reply
  refused : (error : Option Str) → Reply
  accepted : LoginData → Reply

-- What is posted.
pub data Posted : Type 0 where
  login_request : (username password : Str) → Posted
  register_request : (username password display_name : Str) → (email : Option Str) → Posted
  totp_challenge : (challenge_token code : Str) → Posted

abbrev non_empty : Str → Option Str
non_empty [] = none
non_empty (c ∷ s) = some (c ∷ s)

abbrev request_in : Mode → Page → Posted
request_in login_mode p = Posted.login_request p.username p.password
request_in _ p = Posted.register_request p.username p.password p.username (non_empty (trim p.email))

-- What `handleSubmit` posts.
unfoldable pub submit_request : Page → Posted
submit_request p = request_in p.mode p

-- What `handleTotpSubmit` posts.
unfoldable pub totp_request : Page → Posted
totp_request p = Posted.totp_challenge p.challenge_token p.totp_code

abbrev same_or_none : Str → Option OwnProfile → Option OwnProfile
same_or_none id none = none
same_or_none id (some p) = if str_eq p.winkd_id id then some p else none

abbrev stored_avatar : Option OwnProfile → Option Str
stored_avatar none = none
stored_avatar (some p) = p.avatar_data

abbrev stored_status : Option OwnProfile → UserStatus
stored_status none = online
stored_status (some p) = p.status

abbrev or_else {ℓ} : {A : Type ℓ} → Option A → Option A → Option A
or_else none b = b
or_else (some a) b = some a

abbrev or_empty : Option Str → Str
or_empty none = []
or_empty (some s) = s

-- `completeLogin`, with the profile that the browser's storage has, if any.
unfoldable pub complete_login : Option OwnProfile → LoginData → AuthState → AuthState
complete_login stored d auth =
    let own = same_or_none d.winkd_id stored in
    login d.session_token
      (record {
        winkd_id = d.winkd_id;
        display_name = d.display_name;
        mood_message = or_empty d.mood_message;
        status = stored_status own;
        avatar_data = or_else d.avatar_data (stored_avatar own);
        session_token = d.session_token;
      })
      auth

-- The token of a challenge that a reply asks for.
abbrev pub challenge_in : Bool → Option Str → Option Str
challenge_in true (some (c ∷ s)) = some (c ∷ s)
challenge_in _ _ = none

unfoldable pub challenge_of : LoginData → Option Str
challenge_of d = challenge_in d.totp_required d.challenge_token

abbrev says_why : Option Str → Bool
says_why none = false
says_why (some e) = includes (lit "taken") e || includes (lit "registered") e

abbrev usual_error : Mode → Str
usual_error login_mode = lit "Invalid username or password."
usual_error _ = lit "Registration failed. Try a different username."

abbrev after_accepted : Option OwnProfile → LoginData → Option Str → Page → Page
after_accepted stored d none p = record p { auth = complete_login stored d p.auth }
after_accepted stored d (some token) p = record p {
  challenge_token = token;
  mode = totp_mode;
  totp_code = [];
}

-- `handleSubmit`, when the reply is there.
unfoldable pub handle_submit : Option OwnProfile → Reply → Page → Page
handle_submit stored Reply.no_answer p = record p {
  error = lit "Could not connect to server. Is it running?";
  is_loading = false;
}
handle_submit stored (Reply.refused e) p = record p {
  error = if says_why e then or_empty e else usual_error p.mode;
  is_loading = false;
}
handle_submit stored (Reply.accepted d) p =
    after_accepted stored d (challenge_of d) (record p { error = []; is_loading = false })

-- `handleTotpSubmit`, when the reply is there.
unfoldable pub handle_totp_submit : Option OwnProfile → Reply → Page → Page
handle_totp_submit stored Reply.no_answer p = record p {
  error = lit "Could not connect to server.";
  is_loading = false;
}
handle_totp_submit stored (Reply.refused e) p = record p {
  error = lit "Invalid code. Try again or use a backup code.";
  totp_code = [];
  is_loading = false;
}
handle_totp_submit stored (Reply.accepted d) p = record p {
  error = [];
  is_loading = false;
  auth = complete_login stored d p.auth;
}

-- A tab is clicked.
unfoldable pub choose_mode : Mode → Page → Page
choose_mode mode p = record p { mode = mode; error = [] }

-- Back from the second factor.
unfoldable pub leave_totp : Page → Page
leave_totp p = record p { mode = login_mode; error = []; challenge_token = [] }

-- `value.replace(/\s/g, '')`
unfoldable pub without_spaces : Str → Str
without_spaces [] = []
without_spaces (c ∷ s) = let rest = without_spaces s in if is_space c then rest else c ∷ rest

unfoldable pub type_code : Str → Page → Page
type_code value p = record p { totp_code = without_spaces value }
