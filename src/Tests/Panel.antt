-- ===== src/Tests/Panel.antt =====
-- The panel of security settings at concrete inputs.
use winkd.Prelude.{◌≡◌, refl, true, false, some, List, [], ◌∷◌, lit, nat_eq}
use winkd.Security.{done, qr, fresh_panel, ServerRequest}
use winkd.Security.Controls.{World, Control, click, is_enabled, clear_flash}
use winkd.Security.Steps.{Event, Step, Steps}
use winkd.Security.LostCard.{Steps-disable_lost}

-- The second factor is off, and its set-up begins.
abbrev opening : List Event
opening =
    Event.replies ServerRequest.recovery_codes
    ∷ Event.clicks Control.enable_button
    ∷ Event.replies ServerRequest.totp_setup
    ∷ []

abbrev status_known : World
status_known = record {
  panel = record (fresh_panel (lit "t")) { recovery_remaining = some 0; devices_loading = true };
  waiting = ServerRequest.list_devices ∷ [];
}

abbrev setup_asked : World
setup_asked = record {
  panel = record (fresh_panel (lit "t")) {
    recovery_remaining = some 0;
    devices_loading = true;
    loading = true;
  };
  waiting = ServerRequest.list_devices ∷ ServerRequest.totp_setup ∷ [];
}

abbrev at_qr : World
at_qr = record {
  panel = record (fresh_panel (lit "t")) {
    recovery_remaining = some 0;
    devices_loading = true;
    totp_setup_secret = lit "S";
    totp_setup_uri = lit "otpauth:";
    setup_step = qr;
  };
  waiting = ServerRequest.list_devices ∷ [];
}

-- The second factor was just set up.
abbrev set_up : World
set_up = record {
  panel = record (fresh_panel (lit "t")) {
    totp_enabled = true;
    setup_step = done;
    backup_codes = lit "code1" ∷ [];
    disable_code = lit "123456";
  };
  waiting = [];
}

abbrev lost : World
lost = record set_up { panel = record set_up.panel { backup_codes = [] } }

Steps-disable_lost_example :
    (is_enabled Control.disable_button lost.panel ≡ false)
    × (is_enabled Control.enable_button lost.panel ≡ false)
    × (is_enabled Control.setup_done_button lost.panel ≡ false)
unfolding is_enabled click clear_flash
Steps-disable_lost_example =
    Steps-disable_lost (Event.clears ∷ []) set_up lost refl refl tt (tt, tt)
      (Steps.goes _ _ lost lost lost (Step.cleared lost) (Steps.stays lost))
