-- ===== src/Session/Dialogue/Talk.antt =====
-- A conversation in turns.
use winkd.Prelude.{
  ℕ, ◌+◌, ◌≤◌, ◌≡◌, ◌⊎◌, inl, inr, refl, ap, true, List, [], ◌∷◌, map, length, Str, arith,
}
use winkd.Result.{Result, ok}
use winkd.KeyStore.{KeyStore, IsKeyStore}
use winkd.Crypto.WebCrypto.{WebCrypto}
use winkd.Crypto.Assumptions.{IsWebCrypto, is_well_formed}
use winkd.Session.Device.{Device, WireJson}
use winkd.Session.Messages.{IsWireJson}
use winkd.Session.Dialogue.{Talking, AreDifferent, relay}
use winkd.Session.Dialogue.Holding.{relay_holds}
use winkd.Session.Dialogue.Answering.{relay_turns}

-- Who sends a message.
pub data Speaker : Type 0 where
  initiator : Speaker
  responder : Speaker

abbrev pub texts : List (Speaker × Str) → List (Result Str)
texts = map (λ m. ok m.1)

-- No text has a lone surrogate.
abbrev pub AreWellFormed : List (Speaker × Str) → Type 0
AreWellFormed [] = Unit
AreWellFormed ((_, text) ∷ rest) = (is_well_formed text ≡ true) × AreWellFormed rest

module _ {S T : Type 0} ⦃web : WebCrypto⦄ ⦃json : WireJson⦄ ⦃alice : KeyStore S⦄
    ⦃bob : KeyStore T⦄ where
  -- What the receivers read, one message after the other.
  abbrev pub talk :
      (to_bob to_alice : Str) → List (Speaker × Str) → Device S → Device T → List (Result Str)
  talk to_bob to_alice [] da db = []
  talk to_bob to_alice ((initiator, text) ∷ rest) da db =
      let (got, da', db') = relay to_bob to_alice text da db in
      got ∷ talk to_bob to_alice rest da' db'
  talk to_bob to_alice ((responder, text) ∷ rest) da db =
      let (got, db', da') = relay to_alice to_bob text db da in
      got ∷ talk to_bob to_alice rest da' db'

module _ {S T : Type 0} ⦃web : WebCrypto⦄ ⦃json : WireJson⦄ ⦃alice : KeyStore S⦄ ⦃bob : KeyStore T⦄
    (laws : IsWebCrypto web) (json_laws : IsWireJson json) (alice_laws : IsKeyStore alice)
    (bob_laws : IsKeyStore bob) (limit : ℕ) (different : AreDifferent limit)
    (to_bob to_alice : Str) where
  -- Either side may hold.
  pub talk_arrives :
      (messages : List (Speaker × Str)) (da : Device S) (db : Device T)
      → Talking alice bob to_bob to_alice da db ⊎ Talking bob alice to_alice to_bob db da
      → da.draws + length messages ≤ limit
      → db.draws + length messages ≤ limit
      → AreWellFormed messages
      → talk to_bob to_alice messages da db ≡ texts messages
  talk_arrives [] da db t ha hb fine = refl
  talk_arrives ((initiator, text) ∷ rest) da db (inl t) ha hb (fine, more) =
      let (da', db', e, t', n, m) =
        relay_holds laws json_laws alice_laws bob_laws to_bob to_alice text da db t fine in
      rw e (
        ap (λ r. ok text ∷ r) (talk_arrives rest da' db' (inl t') (omega arith) (omega arith) more))
  talk_arrives ((responder, text) ∷ rest) da db (inl t) ha hb (fine, more) =
      let (db', da', e, t', n, m) =
        relay_turns laws json_laws alice_laws bob_laws limit to_bob to_alice text da db different t
          (omega arith) fine in
      rw e (
        ap (λ r. ok text ∷ r) (talk_arrives rest da' db' (inr t') (omega arith) (omega arith) more))
  talk_arrives ((initiator, text) ∷ rest) da db (inr t) ha hb (fine, more) =
      let (da', db', e, t', n, m) =
        relay_turns laws json_laws bob_laws alice_laws limit to_alice to_bob text db da different t
          (omega arith) fine in
      rw e (
        ap (λ r. ok text ∷ r) (talk_arrives rest da' db' (inl t') (omega arith) (omega arith) more))
  talk_arrives ((responder, text) ∷ rest) da db (inr t) ha hb (fine, more) =
      let (db', da', e, t', n, m) =
        relay_holds laws json_laws bob_laws alice_laws to_alice to_bob text db da t fine in
      rw e (
        ap (λ r. ok text ∷ r) (talk_arrives rest da' db' (inr t') (omega arith) (omega arith) more))
