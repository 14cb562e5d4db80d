-- ===== src/Security/Replies.antt =====
-- What every reply to the panel keeps.
use winkd.Prelude.{
  ℕ, ◌+◌, Bool, true, false, Option, some, length, List, [], ◌∷◌, ◌++◌, Str, ◌≤◌, ◌≡◌, ◌⊎◌, inl,
  inr, refl, arith, All,
}
use winkd.Text.{is_space}
use winkd.Security.{
  Panel, SetupStep, without_device, ServerRequest, Answer, Body, RecoveryStatus, TotpSetup,
  DeviceEntry, AuditEntry, flash, got_status, got_devices, got_setup, got_confirmed, got_disabled,
  got_regenerated, got_revoked, got_audit_log,
}
use winkd.Security.Controls.{reply, is_digit}
use winkd.Security.Sound.{of_button, busy, as_number, AreSound, IsSound, busy-append}

-- A request that is answered waits no more.
answered :
    (r : ServerRequest) (before after : List ServerRequest)
    → busy (before ++ r ∷ after) ≡ of_button r + busy (before ++ after)
unfolding busy
answered r before after =
    let e = busy-append before (r ∷ after) in let f = busy-append before after in omega arith

as_number_max : (l : Bool) → as_number l ≤ 1
as_number_max l = ground arith

-- The last request of a button is answered, and `loading` is reset.
settles :
    (r : ServerRequest) (before after : List ServerRequest) (l : Bool) (msg err : Str)
    (confirm disable regen : Str)
    → of_button r ≡ 1
    → busy (before ++ r ∷ after) ≡ as_number l
    → (msg ≡ []) ⊎ (err ≡ [])
    → All (λ c. is_digit c ≡ true) confirm
    → All (λ c. is_space c ≡ false) disable
    → All (λ c. is_space c ≡ false) regen
    → AreSound (before ++ after) false msg err confirm disable regen
settles r before after l msg err confirm disable regen one count flash d1 d2 d3 = record {
  one_at_a_time = let e = answered r before after in let f = as_number_max l in omega arith;
  one_flash = flash;
  digits = d1;
  disable_spaceless = d2;
  regen_spaceless = d3;
}

-- What the handler of a button keeps when its reply is there.
record Settles (p q : Panel) : Type 0 where
  pub flashes_one : (q.msg ≡ []) ⊎ (q.err ≡ [])
  pub confirm_kept : (q.confirm_code ≡ p.confirm_code) ⊎ (q.confirm_code ≡ [])
  pub disable_kept : (q.disable_code ≡ p.disable_code) ⊎ (q.disable_code ≡ [])
  pub regen_kept : (q.regen_code ≡ p.regen_code) ⊎ (q.regen_code ≡ [])

All-kept : (P : ℕ → Type 0) (s t : Str) → (t ≡ s) ⊎ (t ≡ []) → All P s → All P t
All-kept P s t (inl e) h = rw e h
All-kept P s t (inr e) h = rw e tt

Settles-AreSound :
    (r : ServerRequest) (before after : List ServerRequest) (p q : Panel)
    → of_button r ≡ 1
    → Settles p q
    → IsSound (record { panel = p; waiting = before ++ r ∷ after })
    → IsSound (record { panel = record q { loading = false }; waiting = before ++ after })
Settles-AreSound r before after p q one k v =
    settles r before after p.loading q.msg q.err q.confirm_code q.disable_code q.regen_code one
      v.one_at_a_time k.flashes_one
      (All-kept _ p.confirm_code q.confirm_code k.confirm_kept v.digits)
      (All-kept _ p.disable_code q.disable_code k.disable_kept v.disable_spaceless)
      (All-kept _ p.regen_code q.regen_code k.regen_kept v.regen_spaceless)

unchanged-Settles : (p : Panel) → (p.msg ≡ []) ⊎ (p.err ≡ []) → Settles p p
unchanged-Settles p h = record {
  flashes_one = h;
  confirm_kept = inl refl;
  disable_kept = inl refl;
  regen_kept = inl refl;
}

-- A flash replaces what was shown.
flash-Settles :
    (m : Str) (is_err : Bool) (p q : Panel)
    → (q.confirm_code ≡ p.confirm_code) ⊎ (q.confirm_code ≡ [])
    → (q.disable_code ≡ p.disable_code) ⊎ (q.disable_code ≡ [])
    → (q.regen_code ≡ p.regen_code) ⊎ (q.regen_code ≡ [])
    → Settles p (flash m is_err q)
unfolding flash
flash-Settles m false p q a b c = record {
  flashes_one = inr refl;
  confirm_kept = a;
  disable_kept = b;
  regen_kept = c;
}
flash-Settles m true p q a b c = record {
  flashes_one = inl refl;
  confirm_kept = a;
  disable_kept = b;
  regen_kept = c;
}

Shown : Panel → Type 0
Shown p = (p.msg ≡ []) ⊎ (p.err ≡ [])

got_setup-Settles : (a : Answer TotpSetup) (p : Panel) → Shown p → Settles p (got_setup a p)
unfolding got_setup Shown
got_setup-Settles Answer.no_answer p h = unchanged-Settles p h
got_setup-Settles Answer.refused p h = flash-Settles _ true p p (inl refl) (inl refl) (inl refl)
got_setup-Settles (Answer.accepted d) p h = record {
  flashes_one = h;
  confirm_kept = inr refl;
  disable_kept = inl refl;
  regen_kept = inl refl;
}

got_confirmed-Settles :
    (a : Answer (List Str)) (p : Panel) → Shown p → Settles p (got_confirmed a p)
unfolding got_confirmed Shown
got_confirmed-Settles Answer.no_answer p h = unchanged-Settles p h
got_confirmed-Settles Answer.refused p h = flash-Settles _ true p p (inl refl) (inl refl) (inl refl)
got_confirmed-Settles (Answer.accepted d) p h =
    flash-Settles _ false p
      (record p { backup_codes = d; totp_enabled = true; setup_step = SetupStep.done }) (inl refl)
      (inl refl) (inl refl)

got_disabled-Settles : (a : Answer (Unit {0})) (p : Panel) → Shown p → Settles p (got_disabled a p)
unfolding got_disabled Shown
got_disabled-Settles Answer.no_answer p h = unchanged-Settles p h
got_disabled-Settles Answer.refused p h = flash-Settles _ true p p (inl refl) (inl refl) (inl refl)
got_disabled-Settles (Answer.accepted d) p h =
    flash-Settles _ false p (record p { totp_enabled = false; disable_code = [] }) (inl refl)
      (inr refl) (inl refl)

got_regenerated-Settles :
    (a : Answer (List Str)) (p : Panel) → Shown p → Settles p (got_regenerated a p)
unfolding got_regenerated Shown
got_regenerated-Settles Answer.no_answer p h = unchanged-Settles p h
got_regenerated-Settles Answer.refused p h =
    flash-Settles _ true p p (inl refl) (inl refl) (inl refl)
got_regenerated-Settles (Answer.accepted d) p h =
    flash-Settles _ false p
      (record p { backup_codes = d; recovery_remaining = some (length d); regen_code = [] })
      (inl refl) (inl refl) (inr refl)

got_revoked-Settles :
    (id : ℕ) (a : Answer (Unit {0})) (p : Panel) → Shown p → Settles p (got_revoked id a p)
unfolding got_revoked Shown
got_revoked-Settles id Answer.no_answer p h = unchanged-Settles p h
got_revoked-Settles id Answer.refused p h =
    flash-Settles _ true p p (inl refl) (inl refl) (inl refl)
got_revoked-Settles id (Answer.accepted d) p h =
    flash-Settles _ false p (record p { devices = without_device id p.devices }) (inl refl)
      (inl refl) (inl refl)

got_audit_log-Settles :
    (a : Answer (Option (List AuditEntry))) (p : Panel) → Shown p → Settles p (got_audit_log a p)
unfolding got_audit_log Shown
got_audit_log-Settles Answer.no_answer p h = unchanged-Settles p h
got_audit_log-Settles Answer.refused p h = flash-Settles _ true p p (inl refl) (inl refl) (inl refl)
got_audit_log-Settles (Answer.accepted d) p h = record {
  flashes_one = h;
  confirm_kept = inl refl;
  disable_kept = inl refl;
  regen_kept = inl refl;
}

-- The replies that the effect waits for leave what is sound as it is.
got_status-IsSound :
    (a : Answer RecoveryStatus) (rs : List ServerRequest) (p : Panel)
    → IsSound (record { panel = p; waiting = rs })
    → IsSound (record { panel = got_status a p; waiting = rs })
unfolding got_status
got_status-IsSound Answer.no_answer rs p v = v
got_status-IsSound Answer.refused rs p v = v
got_status-IsSound (Answer.accepted d) rs p v = v

got_devices-IsSound :
    (a : Answer (Option (List DeviceEntry))) (rs : List ServerRequest) (p : Panel)
    → IsSound (record { panel = p; waiting = rs })
    → IsSound (record { panel = got_devices a p; waiting = rs })
unfolding got_devices
got_devices-IsSound Answer.no_answer rs p v = v
got_devices-IsSound Answer.refused rs p v = v
got_devices-IsSound (Answer.accepted d) rs p v = v

drops_uncounted :
    (r : ServerRequest) (before after : List ServerRequest) (p : Panel)
    → of_button r ≡ 0
    → IsSound (record { panel = p; waiting = before ++ r ∷ after })
    → IsSound (record { panel = p; waiting = before ++ after })
drops_uncounted r before after p uncounted v = record {
  one_at_a_time = let e = answered r before after in let f = v.one_at_a_time in omega arith;
  one_flash = v.one_flash;
  digits = v.digits;
  disable_spaceless = v.disable_spaceless;
  regen_spaceless = v.regen_spaceless;
}

pub reply-IsSound :
    (r : ServerRequest) (a : Answer (Body r)) (before after : List ServerRequest) (p : Panel)
    → IsSound (record { panel = p; waiting = before ++ r ∷ after })
    → IsSound (record { panel = reply r a p; waiting = before ++ after })
unfolding reply Body Shown
reply-IsSound ServerRequest.recovery_codes a b c p v =
    got_status-IsSound a (b ++ c) p (drops_uncounted ServerRequest.recovery_codes b c p refl v)
reply-IsSound ServerRequest.list_devices a b c p v =
    got_devices-IsSound a (b ++ c) p (drops_uncounted ServerRequest.list_devices b c p refl v)
reply-IsSound ServerRequest.totp_setup a b c p v =
    Settles-AreSound ServerRequest.totp_setup b c p _ refl (got_setup-Settles a p v.one_flash) v
reply-IsSound ServerRequest.audit_events a b c p v =
    Settles-AreSound ServerRequest.audit_events b c p _ refl (got_audit_log-Settles a p v.one_flash)
      v
reply-IsSound (ServerRequest.totp_confirm code) a b c p v =
    Settles-AreSound (ServerRequest.totp_confirm code) b c p _ refl
      (got_confirmed-Settles a p v.one_flash) v
reply-IsSound (ServerRequest.totp_disable code) a b c p v =
    Settles-AreSound (ServerRequest.totp_disable code) b c p _ refl
      (got_disabled-Settles a p v.one_flash) v
reply-IsSound (ServerRequest.generate_codes code) a b c p v =
    Settles-AreSound (ServerRequest.generate_codes code) b c p _ refl
      (got_regenerated-Settles a p v.one_flash) v
reply-IsSound (ServerRequest.delete_device id) a b c p v =
    Settles-AreSound (ServerRequest.delete_device id) b c p _ refl
      (got_revoked-Settles id a p v.one_flash) v
