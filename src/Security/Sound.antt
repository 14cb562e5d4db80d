-- ===== src/Security/Sound.antt =====
-- What every event on the panel keeps.
use winkd.Prelude.{
  ℕ, ◌+◌, Bool, true, false, List, [], ◌∷◌, ◌++◌, Str, ◌≡◌, ◌⊎◌, inl, inr, refl, ap, ◌∙◌, arith,
  All, Bool-cases,
}
use winkd.Text.{is_space, trim}
use winkd.Login.{without_spaces}
use winkd.Security.{ServerRequest}
use winkd.Security.Controls.{
  World, Control, ask_if, load_if, is_enabled, click, load_devices, is_digit, digits_of,
}

-- Sent by a button.
abbrev pub of_button : ServerRequest → ℕ
of_button ServerRequest.recovery_codes = 0
of_button ServerRequest.list_devices = 0
of_button _ = 1

-- How many requests of buttons wait.
unfoldable pub busy : List ServerRequest → ℕ
busy [] = 0
busy (r ∷ rs) = of_button r + busy rs

abbrev pub as_number : Bool → ℕ
as_number false = 0
as_number true = 1

-- `loading` shows whether a request of a button waits, and no two wait; a message and an error are
-- not shown together; the code for the set-up has digits only, and the other two have no spaces.
pub record AreSound (waiting : List ServerRequest) (loading : Bool)
    (msg err confirm disable regen : Str) : Type 0 where
  pub one_at_a_time : busy waiting ≡ as_number loading
  pub one_flash : (msg ≡ []) ⊎ (err ≡ [])
  pub digits : All (λ c. is_digit c ≡ true) confirm
  pub disable_spaceless : All (λ c. is_space c ≡ false) disable
  pub regen_spaceless : All (λ c. is_space c ≡ false) regen

abbrev pub IsSound : World → Type 0
IsSound w =
    let p = w.panel in
    AreSound w.waiting p.loading p.msg p.err p.confirm_code p.disable_code p.regen_code

pub busy-append : (rs ts : List ServerRequest) → busy (rs ++ ts) ≡ busy rs + busy ts
unfolding busy
busy-append [] ts = omega arith
busy-append (r ∷ rs) ts = let e = busy-append rs ts in omega arith

pub digits_of-All : (s : Str) → All (λ c. is_digit c ≡ true) (digits_of s)
unfolding digits_of
digits_of-All [] = tt
digits_of-All (c ∷ s) = elim (Bool-cases (is_digit c)) [
  | inl e ↦ rw e (e, digits_of-All s)
  | inr e ↦ rw e (digits_of-All s)
]

pub without_spaces-All : (s : Str) → All (λ c. is_space c ≡ false) (without_spaces s)
unfolding without_spaces
without_spaces-All [] = tt
without_spaces-All (c ∷ s) = elim (Bool-cases (is_space c)) [
  | inl e ↦ rw e (without_spaces-All s)
  | inr e ↦ rw e (e, without_spaces-All s)
]

-- A request of a button is sent only while none waits.
sends_one :
    (r : ServerRequest) (rs : List ServerRequest) (l : Bool) (msg err confirm disable regen : Str)
    → of_button r ≡ 1
    → l ≡ false
    → AreSound rs l msg err confirm disable regen
    → AreSound (rs ++ r ∷ []) true msg err confirm disable regen
unfolding busy
sends_one r rs l msg err confirm disable regen one quiet v = record {
  one_at_a_time =
      let e = v.one_at_a_time ∙ ap as_number quiet in
      let f = busy-append rs (r ∷ []) in omega arith;
  one_flash = v.one_flash;
  digits = v.digits;
  disable_spaceless = v.disable_spaceless;
  regen_spaceless = v.regen_spaceless;
}

-- A request of the effect does not count.
pub sends_none :
    (r : ServerRequest) (rs : List ServerRequest) (l : Bool) (msg err confirm disable regen : Str)
    → of_button r ≡ 0
    → AreSound rs l msg err confirm disable regen
    → AreSound (rs ++ r ∷ []) l msg err confirm disable regen
unfolding busy
sends_none r rs l msg err confirm disable regen uncounted v = record {
  one_at_a_time = (let f = busy-append rs (r ∷ []) in let e = v.one_at_a_time in omega arith);
  one_flash = v.one_flash;
  digits = v.digits;
  disable_spaceless = v.disable_spaceless;
  regen_spaceless = v.regen_spaceless;
}

sends_if :
    (code : Str) (r : ServerRequest) (w : World)
    → of_button r ≡ 1
    → w.panel.loading ≡ false
    → IsSound w
    → IsSound (ask_if code r w)
sends_if [] r w one quiet v = v
sends_if (c ∷ s) r w one quiet v = sends_one r w.waiting w.panel.loading _ _ _ _ _ one quiet v

pub load_if-IsSound : (token : Str) (w : World) → IsSound w → IsSound (load_if token w)
load_if-IsSound [] w v = v
load_if-IsSound (c ∷ s) w v = sends_none ServerRequest.list_devices w.waiting _ _ _ _ _ _ refl v

pub click-IsSound :
    (c : Control) (w : World) → is_enabled c w.panel ≡ true → IsSound w → IsSound (click c w)
unfolding click is_enabled load_devices
click-IsSound Control.enable_button w h v = sends_one _ w.waiting _ _ _ _ _ _ refl (ground arith) v
click-IsSound Control.confirm_button w h v = sends_one _ w.waiting _ _ _ _ _ _ refl (ground arith) v
click-IsSound Control.cancel_button w h v = v
click-IsSound Control.setup_done_button w h v = v
click-IsSound Control.disable_button w h v =
    sends_if (trim w.panel.disable_code) _ w refl (ground arith) v
click-IsSound Control.regenerate_button w h v =
    sends_if (trim w.panel.regen_code) _ w refl (ground arith) v
click-IsSound Control.codes_done_button w h v = v
click-IsSound Control.reload_button w h v = load_if-IsSound w.panel.token w v
click-IsSound Control.audit_button w h v = sends_one _ w.waiting _ _ _ _ _ _ refl (ground arith) v
click-IsSound (Control.revoke_button id) w h v =
    sends_one _ w.waiting _ _ _ _ _ _ refl (ground arith) v
