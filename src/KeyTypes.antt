-- ===== src/KeyTypes.antt =====
-- packages/core/src/encryption/types.ts, and the wire formats of
-- packages/core/src/encryption/session.ts.
use winkd.Prelude.{ℕ, Bool, Option, Str}
use winkd.Prelude.Dict.{Dict}

pub record IdentityKeyPair : Type 0 where
  pub public_key : Str
  pub private_key : Str

pub record PreKey : Type 0 where
  pub id : ℕ
  pub public_key : Str
  pub private_key : Str

pub record SignedPreKey : Type 0 where
  pub id : ℕ
  pub public_key : Str
  pub private_key : Str
  pub signature : Str

-- `Omit<SignedPreKey, "privateKey">`
pub record PublicSignedPreKey : Type 0 where
  pub id : ℕ
  pub public_key : Str
  pub signature : Str

-- `Omit<PreKey, "privateKey">`
pub record PublicPreKey : Type 0 where
  pub id : ℕ
  pub public_key : Str

pub record PreKeyBundle : Type 0 where
  pub registration_id : ℕ
  pub device_id : ℕ
  pub identity_key : Str
  pub signed_pre_key : PublicSignedPreKey
  pub one_time_pre_key : Option PublicPreKey

pub record EncryptedEnvelope : Type 0 where
  pub type : ℕ
  pub ciphertext : Str
  pub registration_id : ℕ

pub record PendingPreKey : Type 0 where
  pub identity_key : Str
  pub ephemeral_key : Str
  pub spk_id : ℕ
  pub opk_id : Option ℕ

pub record RatchetSession : Type 0 where
  pub root_key : Str
  pub send_chain_key : Option Str
  pub recv_chain_key : Option Str
  pub send_count : ℕ
  pub recv_count : ℕ
  pub prev_send_count : ℕ
  pub our_ratchet_public : Str
  pub our_ratchet_private : Str
  pub their_ratchet_public : Option Str
  pub skipped : Dict Str Str
  pub is_initiator : Bool
  pub pending_pre_key_msg : Option PendingPreKey

pub record RatchetHeader : Type 0 where
  pub rk : Str
  pub n : ℕ
  pub pn : ℕ

-- The members `ik`, `ek`, `spkId` and `opkId` of a `PreKeyWireMessage`.
pub record X3dhParams : Type 0 where
  pub ik : Str
  pub ek : Str
  pub spk_id : ℕ
  pub opk_id : Option ℕ

-- `WireMessage`, or `PreKeyWireMessage` where the parameters are there.
pub record WireMessage : Type 0 where
  pub h : RatchetHeader
  pub ct : Str
  pub iv : Str
  pub params : Option X3dhParams
