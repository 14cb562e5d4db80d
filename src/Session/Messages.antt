-- ===== src/Session/Messages.antt =====
-- Wire messages inside envelopes.
use winkd.Prelude.{
  ◌≡◌, refl, ap, Option, none, some, Str, str_eq, str_eq_iff, if◌then◌else◌, str_eq_instance,
}
use winkd.Codec.Hex.{IsBytes}
use winkd.Codec.Base64.{btoa, atob}
use winkd.Codec.Base64.Laws.{btoa-atob}
use winkd.KeyTypes.{RatchetSession, EncryptedEnvelope, X3dhParams, WireMessage}
use winkd.KeyStore.{KeyStore, IsKeyStore}
use winkd.Session.Device.{WireJson}

abbrev pub IsLatin1Params : Option X3dhParams → Type 0
IsLatin1Params none = Unit
IsLatin1Params (some p) = IsBytes p.ik × IsBytes p.ek

-- Keys and ciphertexts are base64, so every text of a message is ASCII.
abbrev pub IsLatin1 : WireMessage → Type 0
IsLatin1 w = IsBytes w.h.rk × IsBytes w.ct × IsBytes w.iv × IsLatin1Params w.params

-- Documented behaviour of `JSON`: a plain object comes back, and nothing that needs more than
-- Latin-1 is added to the texts.
pub record IsWireJson (json : WireJson) : Type 0 where
  pub parse_stringify : (w : WireMessage) → json.parse (json.stringify w) ≡ some w
  pub stringify_latin1 : (w : WireMessage) → IsLatin1 w → IsBytes (json.stringify w)

-- The envelope's ciphertext decodes to the message.
abbrev pub Holds : WireJson → EncryptedEnvelope → WireMessage → Type 0
Holds json envelope w =
    (text : Str) × (atob envelope.ciphertext ≡ some text) × (json.parse text ≡ some w)

-- A payload can be encoded, and then decodes to what it was.
pub btoa-stringify :
    (json : WireJson)
    → IsWireJson json
    → (w : WireMessage) → IsLatin1 w
    → (payload : Str) × (btoa (json.stringify w) ≡ some payload)
      × (atob payload ≡ some (json.stringify w))
btoa-stringify json laws w h = btoa-atob (json.stringify w) (laws.stringify_latin1 w h)

module _ {S : Type 0} (ks : KeyStore S) (laws : IsKeyStore ks) where
  -- What a session reads as after one was stored.
  pub load_session-store_session :
      (p q : Str) (r : RatchetSession) (s : S)
      → ks.load_session q (ks.store_session p r s)
        ≡ (if str_eq p q then some r else ks.load_session q s)
  load_session-store_session p q r s = ap (λ v. v.sessions q) (laws.store_sess p r s)

  pub load_session-store_session_self :
      (p : Str) (r : RatchetSession) (s : S) → ks.load_session p (ks.store_session p r s) ≡ some r
  load_session-store_session_self p r s =
      rw (load_session-store_session p p r s, (str_eq_iff p p).1 refl)
