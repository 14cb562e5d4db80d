-- ===== src/Security.antt =====
-- apps/web/src/components/SecuritySettings.tsx: the second factor, backup codes, devices and the
-- audit log of who is signed in. `maxLength` of an input and how a date is shown are left out.
pub mod Controls
pub mod Steps
pub mod Sound
pub mod Replies
pub mod Reached
pub mod LostCard
use winkd.Prelude.{
  ℕ, Bool, true, false, Option, none, some, List, [], ◌∷◌, ◌++◌, Str, lit, ◌==◌, length,
  if◌then◌else◌,
}
use winkd.Json.{Members}

pub record DeviceEntry : Type 0 where
  pub id : Str
  pub device_id : ℕ
  pub device_name : Str
  pub registered_at : Str
  pub last_seen : Str

pub record AuditEntry : Type 0 where
  pub id : Str
  pub action : Str
  pub ip_address : Option Str
  pub metadata : Members
  pub created_at : Str

pub data SetupStep : Type 0 where
  idle qr done : SetupStep

-- The state of the panel. `token` is that of the session, or empty.
pub record Panel : Type 0 where
  pub token : Str
  pub totp_enabled : Bool
  pub recovery_remaining : Option ℕ
  pub totp_setup_uri : Str
  pub totp_setup_secret : Str
  pub confirm_code : Str
  pub disable_code : Str
  pub regen_code : Str
  pub backup_codes : List Str
  pub setup_step : SetupStep
  pub devices : List DeviceEntry
  pub devices_loading : Bool
  pub devices_error : Str
  pub audit_log : List AuditEntry
  pub audit_loaded : Bool
  pub msg : Str
  pub err : Str
  pub loading : Bool

abbrev pub fresh_panel : Str → Panel
fresh_panel token = record {
  token = token;
  totp_enabled = false;
  recovery_remaining = none;
  totp_setup_uri = [];
  totp_setup_secret = [];
  confirm_code = [];
  disable_code = [];
  regen_code = [];
  backup_codes = [];
  setup_step = idle;
  devices = [];
  devices_loading = false;
  devices_error = [];
  audit_log = [];
  audit_loaded = false;
  msg = [];
  err = [];
  loading = false;
}

-- What is asked of the server.
pub data ServerRequest : Type 0 where
  recovery_codes list_devices totp_setup audit_events : ServerRequest
  totp_confirm totp_disable generate_codes : (code : Str) → ServerRequest
  delete_device : (device_id : ℕ) → ServerRequest

-- `no_answer`: the request fails, or what it answers cannot be read.
pub data Answer (A : Type 0) : Type 0 where
  no_answer refused : Answer A
  accepted : A → Answer A

pub record RecoveryStatus : Type 0 where
  pub totp_enabled : Bool
  pub recovery_codes_remaining : ℕ

pub record TotpSetup : Type 0 where
  pub secret : Str
  pub uri : Str

-- What the body of an accepted answer is cast to.
unfoldable pub Body : ServerRequest → Type 0
Body recovery_codes = RecoveryStatus
Body list_devices = Option (List DeviceEntry)
Body totp_setup = TotpSetup
Body audit_events = Option (List AuditEntry)
Body (totp_confirm code) = List Str
Body (totp_disable code) = Unit {0}
Body (generate_codes code) = List Str
Body (delete_device device_id) = Unit {0}

-- `a ?? []`
abbrev pub or_nil : {A : Type 0} → Option (List A) → List A
or_nil none = []
or_nil (some xs) = xs

-- `flash`, without its timer
unfoldable pub flash : Str → (is_err : Bool) → Panel → Panel
flash m false p = record p { msg = m; err = [] }
flash m true p = record p { msg = []; err = m }

-- `.then(…)` and `.catch(() => {})` of the effect. `ok` is not checked: what a refused request answers
-- has neither member, and `undefined` for the count is kept as `none` too.
unfoldable pub got_status : Answer RecoveryStatus → Panel → Panel
got_status (Answer.accepted d) p = record p {
  totp_enabled = d.totp_enabled;
  recovery_remaining = some d.recovery_codes_remaining;
}
got_status Answer.refused p = record p { totp_enabled = false; recovery_remaining = none }
got_status Answer.no_answer p = p

-- `loadDevices`, when the reply is there
unfoldable pub got_devices : Answer (Option (List DeviceEntry)) → Panel → Panel
got_devices (Answer.accepted d) p = record p { devices = or_nil d; devices_loading = false }
got_devices _ p = record p {
  devices_error = lit "Could not load connected devices right now.";
  devices_loading = false;
}

-- `startSetup`
unfoldable pub got_setup : Answer TotpSetup → Panel → Panel
unfolding flash
got_setup Answer.no_answer p = p
got_setup Answer.refused p = flash (lit "Setup failed.") true p
got_setup (Answer.accepted d) p = record p {
  totp_setup_secret = d.secret;
  totp_setup_uri = d.uri;
  setup_step = qr;
  confirm_code = [];
}

-- `confirmSetup`
unfoldable pub got_confirmed : Answer (List Str) → Panel → Panel
unfolding flash
got_confirmed Answer.no_answer p = p
got_confirmed Answer.refused p = flash (lit "Invalid code. Check your authenticator app.") true p
got_confirmed (Answer.accepted codes) p =
    flash (lit "2FA enabled! Save your backup codes.") false
      (record p { backup_codes = codes; totp_enabled = true; setup_step = done })

-- `disableTotp`
unfoldable pub got_disabled : Answer (Unit {0}) → Panel → Panel
unfolding flash
got_disabled Answer.no_answer p = p
got_disabled Answer.refused p = flash (lit "Invalid code.") true p
got_disabled (Answer.accepted _) p =
    flash (lit "2FA has been disabled.") false
      (record p { totp_enabled = false; disable_code = [] })

-- `regenerateCodes`
unfoldable pub got_regenerated : Answer (List Str) → Panel → Panel
unfolding flash
got_regenerated Answer.no_answer p = p
got_regenerated Answer.refused p = flash (lit "Invalid code.") true p
got_regenerated (Answer.accepted codes) p =
    flash
      (lit "New backup codes generated. Save them now "
        ++ 0x2014 ∷ lit " they won't be shown again.")
      false
      (record p { backup_codes = codes; recovery_remaining = some (length codes); regen_code = [] })

-- `prev.filter(d => d.device_id !== deviceId)`
unfoldable pub without_device : ℕ → List DeviceEntry → List DeviceEntry
without_device id [] = []
without_device id (d ∷ ds) =
    let rest = without_device id ds in if d.device_id == id then rest else d ∷ rest

-- `revokeDevice`
unfoldable pub got_revoked : ℕ → Answer (Unit {0}) → Panel → Panel
unfolding flash
got_revoked id Answer.no_answer p = p
got_revoked id Answer.refused p = flash (lit "Could not revoke device.") true p
got_revoked id (Answer.accepted _) p =
    flash (lit "Device revoked.") false (record p { devices = without_device id p.devices })

-- `loadAuditLog`
unfoldable pub got_audit_log : Answer (Option (List AuditEntry)) → Panel → Panel
unfolding flash
got_audit_log Answer.no_answer p = p
got_audit_log Answer.refused p = flash (lit "Could not load audit log.") true p
got_audit_log (Answer.accepted d) p = record p { audit_log = or_nil d; audit_loaded = true }
