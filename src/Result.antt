-- ===== src/Result.antt =====
-- What an `async` function of packages/core/src/encryption settles to: a value, or what it throws.
use winkd.Prelude.{ℕ, Bool, true, false, Option, none, some, Str}

pub data Error : Type 0 where
  -- a rejection by SubtleCrypto, `atob` or `btoa`
  dom_exception : Error
  -- `JSON.parse`
  syntax_error : Error
  invalid_signature : Str → Error
  no_identity_key : Error
  no_session : Str → Error
  no_sending_chain : Error
  no_receiving_chain : Error
  too_many_skipped : Error
  signed_pre_key_not_found : ℕ → Error
  -- a type-1 payload without X3DH parameters
  malformed_message : Error

pub data Result {ℓ} (A : Type ℓ) : Type ℓ where
  ok : A → Result A
  err : Error → Result A

infixl 5 ◌>>=◌ ◌>>◌
abbrev pub ◌>>=◌ {ℓ κ} : {A : Type ℓ} {B : Type κ} → Result A → (A → Result B) → Result B
ok a >>= f = f a
err e >>= f = err e

abbrev pub ◌>>◌ {ℓ κ} : {A : Type ℓ} {B : Type κ} → Result A → Result B → Result B
m >> k = m >>= λ _. k

abbrev pub or_throw {ℓ} : {A : Type ℓ} → Option A → Error → Result A
or_throw none e = err e
or_throw (some a) e = ok a

-- `if (b) throw e`
abbrev pub throw_if : Bool → Error → Result (Unit {0})
throw_if true e = err e
throw_if false e = ok tt
