-- ===== src/Security/Controls.antt =====
-- What can be clicked and typed on the panel of SecuritySettings.tsx, and what it does.
use winkd.Prelude.{
  ℕ, Bool, true, false, not, ◌&&◌, ◌||◌, List, [], ◌∷◌, ◌++◌, Str, leb, ltb, ◌==◌, length,
  if◌then◌else◌,
}
use winkd.Text.{trim}
use winkd.Login.{without_spaces}
use winkd.Security.{
  Panel, SetupStep, idle, qr, done, DeviceEntry, ServerRequest, Answer, Body, fresh_panel,
  got_status, got_devices, got_setup, got_confirmed, got_disabled, got_regenerated, got_revoked,
  got_audit_log,
}

-- The panel, and the requests whose replies are not there yet.
pub record World : Type 0 where
  pub panel : Panel
  pub waiting : List ServerRequest

pub data Control : Type 0 where
  enable_button confirm_button cancel_button setup_done_button disable_button : Control
  regenerate_button codes_done_button reload_button audit_button : Control
  revoke_button : ℕ → Control

abbrev pub is_idle : SetupStep → Bool
is_idle idle = true
is_idle _ = false

abbrev pub is_qr : SetupStep → Bool
is_qr qr = true
is_qr _ = false

abbrev pub is_done : SetupStep → Bool
is_done done = true
is_done _ = false

abbrev pub is_nil {ℓ} : {A : Type ℓ} → List A → Bool
is_nil [] = true
is_nil (a ∷ rest) = false

unfoldable pub is_listed : ℕ → List DeviceEntry → Bool
is_listed id [] = false
is_listed id (d ∷ ds) = d.device_id == id || is_listed id ds

-- The control is rendered, and not `disabled`.
unfoldable pub is_enabled : Control → Panel → Bool
is_enabled Control.enable_button p = not p.totp_enabled && is_idle p.setup_step && not p.loading
is_enabled Control.confirm_button p =
    is_qr p.setup_step && not (p.loading || not (length p.confirm_code == 6))
is_enabled Control.cancel_button p = is_qr p.setup_step && not p.loading
is_enabled Control.setup_done_button p = is_done p.setup_step && not (is_nil p.backup_codes)
is_enabled Control.disable_button p =
    p.totp_enabled
    && is_idle p.setup_step
    && not (p.loading || ltb (length (trim p.disable_code)) 6)
is_enabled Control.regenerate_button p =
    p.totp_enabled && is_nil p.backup_codes && not (p.loading || ltb (length (trim p.regen_code)) 6)
is_enabled Control.codes_done_button p = p.totp_enabled && not (is_nil p.backup_codes)
is_enabled Control.reload_button p =
    not p.devices_loading && (not (is_nil p.devices_error) || is_nil p.devices) && not p.loading
is_enabled Control.audit_button p = not p.audit_loaded && not p.loading
is_enabled (Control.revoke_button id) p =
    not p.devices_loading && is_nil p.devices_error && is_listed id p.devices && not p.loading

-- A handler up to its `await`.
abbrev ask : ServerRequest → World → World
ask r w = record { panel = record w.panel { loading = true }; waiting = w.waiting ++ r ∷ [] }

-- `if (!code.trim()) return`
abbrev pub ask_if : Str → ServerRequest → World → World
ask_if [] r w = w
ask_if (c ∷ s) r w = ask r w

-- `loadDevices` up to its `await`: without a token it does nothing.
abbrev pub load_if : Str → World → World
load_if [] w = w
load_if (c ∷ s) w = record {
  panel = record w.panel { devices_loading = true; devices_error = [] };
  waiting = w.waiting ++ ServerRequest.list_devices ∷ [];
}

unfoldable pub load_devices : World → World
load_devices w = load_if w.panel.token w

abbrev mount_if : Str → World
mount_if [] = record { panel = fresh_panel []; waiting = [] }
mount_if (c ∷ s) =
    load_devices
      (record { panel = fresh_panel (c ∷ s); waiting = ServerRequest.recovery_codes ∷ [] })

-- The panel is opened, and its effect has run.
unfoldable pub mount : (token : Str) → World
unfolding load_devices
mount token = mount_if token

unfoldable pub click : Control → World → World
unfolding load_devices
click Control.enable_button w = ask ServerRequest.totp_setup w
click Control.confirm_button w = ask (ServerRequest.totp_confirm w.panel.confirm_code) w
click Control.cancel_button w = record w { panel = record w.panel { setup_step = idle } }
click Control.setup_done_button w = record w {
  panel = record w.panel { setup_step = idle; backup_codes = [] };
}
click Control.disable_button w =
    ask_if (trim w.panel.disable_code) (ServerRequest.totp_disable w.panel.disable_code) w
click Control.regenerate_button w =
    ask_if (trim w.panel.regen_code) (ServerRequest.generate_codes w.panel.regen_code) w
click Control.codes_done_button w = record w { panel = record w.panel { backup_codes = [] } }
click Control.reload_button w = load_devices w
click Control.audit_button w = ask ServerRequest.audit_events w
click (Control.revoke_button id) w = ask (ServerRequest.delete_device id) w

-- A handler after its `await`. Those of the buttons end with `finally { setLoading(false) }`.
unfoldable pub reply : (r : ServerRequest) → Answer (Body r) → Panel → Panel
unfolding Body
reply ServerRequest.recovery_codes a p = got_status a p
reply ServerRequest.list_devices a p = got_devices a p
reply ServerRequest.totp_setup a p = record (got_setup a p) { loading = false }
reply ServerRequest.audit_events a p = record (got_audit_log a p) { loading = false }
reply (ServerRequest.totp_confirm code) a p = record (got_confirmed a p) { loading = false }
reply (ServerRequest.totp_disable code) a p = record (got_disabled a p) { loading = false }
reply (ServerRequest.generate_codes code) a p = record (got_regenerated a p) { loading = false }
reply (ServerRequest.delete_device id) a p = record (got_revoked id a p) { loading = false }

unfoldable pub is_digit : ℕ → Bool
is_digit c = leb 48 c && leb c 57

-- `value.replace(/\D/g, '')`
unfoldable pub digits_of : Str → Str
digits_of [] = []
digits_of (c ∷ s) = let rest = digits_of s in if is_digit c then c ∷ rest else rest

unfoldable pub type_confirm : Str → Panel → Panel
type_confirm value p = record p { confirm_code = digits_of value }

unfoldable pub type_disable : Str → Panel → Panel
type_disable value p = record p { disable_code = without_spaces value }

unfoldable pub type_regen : Str → Panel → Panel
type_regen value p = record p { regen_code = without_spaces value }

-- The timer of a `flash`
unfoldable pub clear_flash : Panel → Panel
clear_flash p = record p { msg = []; err = [] }
