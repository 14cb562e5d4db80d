-- ===== src/Auth/Laws.antt =====
-- Who is signed in after a sequence of actions of the auth store.
use winkd.Prelude.{◌≡◌, refl, Option, none, some, List, [], ◌∷◌, Str}
use winkd.Auth.{
  OwnProfile, ProfilePatch, SupporterPatch, AuthState, login, logout, update_profile,
  set_supporter_state,
}

pub data AuthCall : Type 0 where
  login_call : Str → OwnProfile → AuthCall
  logout_call : AuthCall
  update_profile_call : ProfilePatch → AuthCall
  set_supporter_state_call : SupporterPatch → AuthCall

unfoldable pub auth_call : AuthCall → AuthState → AuthState
auth_call (AuthCall.login_call token profile) s = login token profile s
auth_call AuthCall.logout_call s = logout s
auth_call (AuthCall.update_profile_call partial) s = update_profile partial s
auth_call (AuthCall.set_supporter_state_call partial) s = set_supporter_state partial s

unfoldable pub auth_run : List AuthCall → AuthState → AuthState
auth_run [] s = s
auth_run (c ∷ cs) s = auth_run cs (auth_call c s)

abbrev pub token_of : AuthState → Option Str
token_of none = none
token_of (some session) = some session.token

-- The token of the last login that no logout follows, or else the old one if there is no logout.
unfoldable pub last_token : List AuthCall → Option Str → Option Str
last_token [] old = old
last_token (AuthCall.login_call token profile ∷ cs) old = last_token cs (some token)
last_token (AuthCall.logout_call ∷ cs) old = last_token cs none
last_token (AuthCall.update_profile_call partial ∷ cs) old = last_token cs old
last_token (AuthCall.set_supporter_state_call partial ∷ cs) old = last_token cs old

-- After any sequence of actions the session's token is that of the last login if no logout follows
-- it; there is no session after a logout that no login follows; with neither, the token is the one
-- before, and a change of profile or supporter state without a session makes none.
pub auth_run-token :
    (cs : List AuthCall) (s : AuthState) → token_of (auth_run cs s) ≡ last_token cs (token_of s)
unfolding auth_run auth_call last_token login logout update_profile set_supporter_state
auth_run-token [] s = refl
auth_run-token (AuthCall.login_call token profile ∷ cs) s = auth_run-token cs _
auth_run-token (AuthCall.logout_call ∷ cs) s = auth_run-token cs _
auth_run-token (AuthCall.update_profile_call partial ∷ cs) none = auth_run-token cs none
auth_run-token (AuthCall.update_profile_call partial ∷ cs) (some session) = auth_run-token cs _
auth_run-token (AuthCall.set_supporter_state_call partial ∷ cs) none = auth_run-token cs none
auth_run-token (AuthCall.set_supporter_state_call partial ∷ cs) (some session) = auth_run-token cs _
