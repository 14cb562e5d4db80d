-- ===== src/Tests/Login.antt =====
-- A concrete login with a second factor.
use winkd.Prelude.{◌≡◌, refl, true, false, none, some, List, [], ◌∷◌, lit}
use winkd.Auth.Laws.{token_of}
use winkd.Login.{fresh_page, LoginData, Reply, Posted, totp_request}
use winkd.Login.Laws.{Event, steps, last_opened, last_challenge, steps_lem}

abbrev challenge : LoginData
challenge = record {
  session_token = [];
  totp_required = true;
  challenge_token = some (lit "c1");
  winkd_id = [];
  display_name = [];
  mood_message = none;
  avatar_data = none;
}

abbrev signed_in : LoginData
signed_in = record challenge {
  session_token = lit "t1";
  totp_required = false;
  winkd_id = lit "me#0000";
}

abbrev second_factor : List Event
second_factor =
    Event.types_username (lit "me")
    ∷ Event.submits none (Reply.accepted challenge)
    ∷ Event.types_code (lit "12 3456")
    ∷ Event.totp_submits none (Reply.refused none)
    ∷ Event.totp_submits none (Reply.accepted signed_in)
    ∷ []

steps_example :
    (token_of (steps second_factor fresh_page).auth ≡ last_opened second_factor none)
    × (totp_request (steps second_factor fresh_page)
        ≡ Posted.totp_challenge
            (last_challenge second_factor [])
            (steps second_factor fresh_page).totp_code)
steps_example = steps_lem second_factor fresh_page

-- The session is opened by the second factor.
opened_example : last_opened second_factor none ≡ some (lit "t1")
opened_example = refl
