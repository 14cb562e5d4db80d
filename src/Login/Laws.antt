-- ===== src/Login/Laws.antt =====
-- Which replies sign a person in.
use winkd.Prelude.{
  ◌≡◌, refl, Bool, true, false, ◌&&◌, Option, none, some, List, [], ◌∷◌, Str, suc, ltb, arith,
  length, if◌then◌else◌,
}
use winkd.Auth.{OwnProfile, login}
use winkd.Auth.Laws.{token_of}
use winkd.Login.{
  Mode, Page, LoginData, Reply, Posted, handle_submit, handle_totp_submit, complete_login,
  challenge_in, challenge_of, choose_mode, leave_totp, type_code, totp_request, after_accepted,
}

-- What happens on the page.
pub data Event : Type 0 where
  submits : Option OwnProfile → Reply → Event
  totp_submits : Option OwnProfile → Reply → Event
  chooses : Mode → Event
  leaves : Event
  types_username types_email types_password types_code : Str → Event

unfoldable pub step : Event → Page → Page
step (Event.submits stored r) p = handle_submit stored r p
step (Event.totp_submits stored r) p = handle_totp_submit stored r p
step (Event.chooses mode) p = choose_mode mode p
step Event.leaves p = leave_totp p
step (Event.types_username s) p = record p { username = s }
step (Event.types_email s) p = record p { email = s }
step (Event.types_password s) p = record p { password = s }
step (Event.types_code s) p = type_code s p

unfoldable pub steps : List Event → Page → Page
steps [] p = p
steps (e ∷ es) p = steps es (step e p)

abbrev pub text_in : Option Str → Str
text_in none = []
text_in (some s) = s

-- A reply that requires the second factor and has a challenge of one character or more.
abbrev pub asks_second_factor : LoginData → Bool
asks_second_factor d = d.totp_required && ltb 0 (length (text_in d.challenge_token))

-- The session token after an event: that of an accepted reply that asks for no second factor, or of
-- an accepted second factor.
abbrev pub opened_by : Event → Option Str → Option Str
opened_by (Event.submits stored (Reply.accepted d)) old =
    if asks_second_factor d then old else some d.session_token
opened_by (Event.totp_submits stored (Reply.accepted d)) old = some d.session_token
opened_by _ old = old

-- The challenge after an event: that of the last reply that asks for the second factor, until that
-- is left.
abbrev pub challenged_by : Event → Str → Str
challenged_by (Event.submits stored (Reply.accepted d)) old =
    if asks_second_factor d then text_in d.challenge_token else old
challenged_by Event.leaves old = []
challenged_by _ old = old

abbrev pub last_opened : List Event → Option Str → Option Str
last_opened [] old = old
last_opened (e ∷ es) old = last_opened es (opened_by e old)

abbrev pub last_challenge : List Event → Str → Str
last_challenge [] old = old
last_challenge (e ∷ es) old = last_challenge es (challenged_by e old)

-- The two members of the reply, whatever they are.
accepted_step :
    (stored : Option OwnProfile) (d : LoginData) (required : Bool) (challenge : Option Str)
    (p : Page)
    → let asks = required && ltb 0 (length (text_in challenge)) in
      let next = after_accepted stored d (challenge_in required challenge) p in
      (token_of next.auth ≡ (if asks then token_of p.auth else some d.session_token))
      × (next.challenge_token ≡ (if asks then text_in challenge else p.challenge_token))
unfolding complete_login login
accepted_step stored d false challenge p = (refl, refl)
accepted_step stored d true none p = (refl, refl)
accepted_step stored d true (some []) p = (refl, refl)
accepted_step stored d true (some (c ∷ s)) p =
    let more : ltb 0 (suc (length s)) ≡ true = ground arith in rw more (refl, refl)

step_lem :
    (e : Event) (p : Page)
    → (token_of (step e p).auth ≡ opened_by e (token_of p.auth))
      × ((step e p).challenge_token ≡ challenged_by e p.challenge_token)
unfolding step handle_submit handle_totp_submit choose_mode leave_totp type_code complete_login
    login challenge_of
step_lem (Event.submits stored Reply.no_answer) p = (refl, refl)
step_lem (Event.submits stored (Reply.refused e)) p = (refl, refl)
step_lem (Event.submits stored (Reply.accepted d)) p =
    accepted_step stored d d.totp_required d.challenge_token
      (record p { error = []; is_loading = false })
step_lem (Event.totp_submits stored Reply.no_answer) p = (refl, refl)
step_lem (Event.totp_submits stored (Reply.refused e)) p = (refl, refl)
step_lem (Event.totp_submits stored (Reply.accepted d)) p = (refl, refl)
step_lem (Event.chooses mode) p = (refl, refl)
step_lem Event.leaves p = (refl, refl)
step_lem (Event.types_username s) p = (refl, refl)
step_lem (Event.types_email s) p = (refl, refl)
step_lem (Event.types_password s) p = (refl, refl)
step_lem (Event.types_code s) p = (refl, refl)

-- After any events on the page: the session is that of the last accepted reply that asks for no
-- second factor or of the last accepted second factor, whichever is later, or the old one if there
-- is none; and the second factor is posted for the challenge of the last reply that asks for it
-- since the second factor was left, with the code that the page shows. A reply asks for the second
-- factor if it requires it and has a challenge that is not empty.
pub steps_lem :
    (es : List Event) (p : Page)
    → (token_of (steps es p).auth ≡ last_opened es (token_of p.auth))
      × (totp_request (steps es p)
          ≡ Posted.totp_challenge (last_challenge es p.challenge_token) (steps es p).totp_code)
unfolding steps totp_request
steps_lem [] p = (refl, refl)
steps_lem (e ∷ es) p =
    let (opened, challenged) = step_lem e p in
    let (rest, later) = steps_lem es (step e p) in (rw (← opened) rest, rw (← challenged) later)
