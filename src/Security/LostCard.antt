-- ===== src/Security/LostCard.antt =====
-- The card that ends the set-up of the second factor.
use winkd.Prelude.{
  Bool, true, false, List, [], ◌∷◌, ◌++◌, Str, ◌≡◌, refl, ap, ◌∙◌, arith, All, All-append,
}
use winkd.Security.{
  Panel, SetupStep, done, ServerRequest, Answer, Body, flash, got_status, got_devices, got_disabled,
  got_revoked, got_audit_log,
}
use winkd.Security.Controls.{
  World, Control, is_enabled, is_nil, is_idle, is_qr, click, load_devices, load_if, reply,
  type_confirm, type_disable, type_regen, clear_flash,
}
use winkd.Security.Steps.{Event, Step, Steps}

-- The reply can change the step of the set-up, or the codes that are shown.
abbrev pub changes_card : ServerRequest → Bool
changes_card ServerRequest.totp_setup = true
changes_card (ServerRequest.totp_confirm code) = true
changes_card (ServerRequest.generate_codes code) = true
changes_card _ = false

-- The second factor is set up, and the codes were put away in the section below the card.
pub record IsLost (w : World) : Type 0 where
  pub step : w.panel.setup_step ≡ done
  pub codes : w.panel.backup_codes ≡ []
  pub waiting : All (λ r. changes_card r ≡ false) w.waiting

abbrev pub IsOther : Event → Type 0
IsOther (Event.clicks Control.regenerate_button) = ⊥
IsOther _ = Unit

All-without :
    (P : ServerRequest → Type 0) (before after : List ServerRequest) (r : ServerRequest)
    → All P (before ++ r ∷ after)
    → P r × All P (before ++ after)
All-without P [] after r h = h
All-without P (b ∷ before) after r (h, k) =
    let (p, q) = All-without P before after r k in (p, (h, q))

asks :
    (r : ServerRequest) (w : World)
    → changes_card r ≡ false
    → IsLost w
    → All (λ r. changes_card r ≡ false) (w.waiting ++ r ∷ [])
asks r w e v = All-append (λ t. changes_card t ≡ false) w.waiting (r ∷ []) v.waiting (e, tt)

load_if-IsLost : (token : Str) (w : World) → IsLost w → IsLost (load_if token w)
load_if-IsLost [] w v = v
load_if-IsLost (c ∷ s) w v = record {
  step = v.step;
  codes = v.codes;
  waiting = asks ServerRequest.list_devices w refl v;
}

no_idle : (s : SetupStep) → s ≡ done → is_idle s ≡ false
no_idle s e = rw e refl

no_qr : (s : SetupStep) → s ≡ done → is_qr s ≡ false
no_qr s e = rw e refl

click-IsLost :
    (c : Control) (w : World)
    → IsOther (Event.clicks c)
    → is_enabled c w.panel ≡ true
    → IsLost w
    → IsLost (click c w)
unfolding click is_enabled load_devices
click-IsLost Control.enable_button w o h v =
    let e = no_idle w.panel.setup_step v.step in absurd (ground arith)
click-IsLost Control.confirm_button w o h v =
    let e = no_qr w.panel.setup_step v.step in absurd (ground arith)
click-IsLost Control.cancel_button w o h v =
    let e = no_qr w.panel.setup_step v.step in absurd (ground arith)
click-IsLost Control.setup_done_button w o h v = let e = ap is_nil v.codes in absurd (ground arith)
click-IsLost Control.disable_button w o h v =
    let e = no_idle w.panel.setup_step v.step in absurd (ground arith)
click-IsLost Control.regenerate_button w o h v = absurd o
click-IsLost Control.codes_done_button w o h v = record {
  step = v.step;
  codes = refl;
  waiting = v.waiting;
}
click-IsLost Control.reload_button w o h v = load_if-IsLost w.panel.token w v
click-IsLost Control.audit_button w o h v = record {
  step = v.step;
  codes = v.codes;
  waiting = asks ServerRequest.audit_events w refl v;
}
click-IsLost (Control.revoke_button id) w o h v = record {
  step = v.step;
  codes = v.codes;
  waiting = asks (ServerRequest.delete_device id) w refl v;
}

-- What the replies that may come leave as it is.
reply-card :
    (r : ServerRequest) (a : Answer (Body r)) (p : Panel)
    → changes_card r ≡ false
    → ((reply r a p).setup_step ≡ p.setup_step) × ((reply r a p).backup_codes ≡ p.backup_codes)
unfolding reply Body flash got_status got_devices got_disabled got_revoked got_audit_log
reply-card ServerRequest.recovery_codes Answer.no_answer p e = (refl, refl)
reply-card ServerRequest.recovery_codes Answer.refused p e = (refl, refl)
reply-card ServerRequest.recovery_codes (Answer.accepted d) p e = (refl, refl)
reply-card ServerRequest.list_devices Answer.no_answer p e = (refl, refl)
reply-card ServerRequest.list_devices Answer.refused p e = (refl, refl)
reply-card ServerRequest.list_devices (Answer.accepted d) p e = (refl, refl)
reply-card ServerRequest.totp_setup a p e = cc
reply-card ServerRequest.audit_events Answer.no_answer p e = (refl, refl)
reply-card ServerRequest.audit_events Answer.refused p e = (refl, refl)
reply-card ServerRequest.audit_events (Answer.accepted d) p e = (refl, refl)
reply-card (ServerRequest.totp_confirm code) a p e = cc
reply-card (ServerRequest.totp_disable code) Answer.no_answer p e = (refl, refl)
reply-card (ServerRequest.totp_disable code) Answer.refused p e = (refl, refl)
reply-card (ServerRequest.totp_disable code) (Answer.accepted d) p e = (refl, refl)
reply-card (ServerRequest.generate_codes code) a p e = cc
reply-card (ServerRequest.delete_device id) Answer.no_answer p e = (refl, refl)
reply-card (ServerRequest.delete_device id) Answer.refused p e = (refl, refl)
reply-card (ServerRequest.delete_device id) (Answer.accepted d) p e = (refl, refl)

Step-IsLost : (e : Event) (u v : World) → Step e u v → IsOther e → IsLost u → IsLost v
unfolding type_confirm type_disable type_regen clear_flash
Step-IsLost e u v (Step.clicked c w h) o s = click-IsLost c w o h s
Step-IsLost e u v (Step.replied r a before after p) o s =
    let (quiet, rest) = All-without _ before after r s.waiting in
    let (same_step, same_codes) = reply-card r a p quiet in
    record { step = same_step ∙ s.step; codes = same_codes ∙ s.codes; waiting = rest }
Step-IsLost e u v (Step.typed_confirm t w) o s = record {
  step = s.step;
  codes = s.codes;
  waiting = s.waiting;
}
Step-IsLost e u v (Step.typed_disable t w) o s = record {
  step = s.step;
  codes = s.codes;
  waiting = s.waiting;
}
Step-IsLost e u v (Step.typed_regen t w) o s = record {
  step = s.step;
  codes = s.codes;
  waiting = s.waiting;
}
Step-IsLost e u v (Step.cleared w) o s = record {
  step = s.step;
  codes = s.codes;
  waiting = s.waiting;
}

Steps-IsLost : (es : List Event) (u v : World) → Steps es u v → All IsOther es → IsLost u → IsLost v
Steps-IsLost es u v (Steps.stays w) o s = s
Steps-IsLost es u v (Steps.goes e rest a m b h k) o s =
    Steps-IsLost rest m b k o.1 (Step-IsLost e a m h o.0 s)

-- When the second factor was set up, the new backup codes stand on the card of the set-up and in
-- the section of backup codes. If they are put away in the section, while no request waits whose
-- reply changes the step of the set-up or the codes, the card is gone but the set-up stays at its
-- last step: whatever happens then, in any order, but a click on the button that makes new codes,
-- the second factor cannot be disabled, enabled, or its set-up finished.
pub Steps-disable_lost :
    (es : List Event) (u v : World)
    → u.panel.setup_step ≡ done
    → is_enabled Control.codes_done_button u.panel ≡ true
    → All (λ r. changes_card r ≡ false) u.waiting
    → All IsOther es
    → Steps es (click Control.codes_done_button u) v
    → (is_enabled Control.disable_button v.panel ≡ false)
      × (is_enabled Control.enable_button v.panel ≡ false)
      × (is_enabled Control.setup_done_button v.panel ≡ false)
unfolding is_enabled click
Steps-disable_lost es u v step there waiting others h =
    let lost =
      Steps-IsLost es (click Control.codes_done_button u) v h others
        (record { step = step; codes = refl; waiting = waiting }) in
    let e = no_idle v.panel.setup_step lost.step in
    let f = ap is_nil lost.codes in (ground arith, ground arith, ground arith)
