-- ===== src/Tests/Toy.antt =====
-- Functions that behave as `IsWebCrypto` and `IsWireJson` ask.
use native.Mathlib.Nat.{mul_comm}
use winkd.Prelude.{
  ℕ, ◌+◌, ◌*◌, ◌/◌, ◌%◌, ◌≡◌, refl, ap, ◌∙◌, Option, none, some, List, [], ◌∷◌, Str, lit, arith,
  length-replicate, replicate, take, str_eq, str_eq_iff, str_eq_instance, if◌then◌else◌, ◌==◌,
}
use winkd.Prelude.Dict
use winkd.Codec.Hex.{Bytes}
use winkd.KeyTypes.{WireMessage, X3dhParams}
use winkd.Crypto.WebCrypto.{WebCrypto, Jwk}
use winkd.Crypto.Assumptions.{IsWebCrypto}
use winkd.Session.Device.{WireJson}
use winkd.Session.Messages.{IsWireJson}
use winkd.Tests.Codes.{
  bits, unbits, unbits-bits, bits-IsBytes, All-replicate, join, unjoin, unjoin-join,
}

abbrev sum : List ℕ → ℕ
sum [] = 0
sum (x ∷ xs) = x + sum xs

abbrev members : Jwk → List Str
members [] = []
members ((k, v) ∷ j) = k ∷ v ∷ members j

abbrev from_members : List Str → Jwk
from_members [] = []
from_members (k ∷ []) = []
from_members (k ∷ v ∷ r) = (k, v) ∷ from_members r

from_members-members : (j : Jwk) → from_members (members j) ≡ j
from_members-members [] = refl
from_members-members ((k, v) ∷ j) = ap (λ r. (k, v) ∷ r) (from_members-members j)

abbrev import_key : Bytes → Option Bytes
import_key [] = none
import_key (b ∷ bs) = some (b ∷ bs)

-- The tag is the key's sum.
abbrev open_tagged : ℕ → List ℕ → Option Bytes
open_tagged tag [] = none
open_tagged tag (t ∷ m) = if t == tag then some m else none

instance abbrev pub toy : WebCrypto
toy = record {
  CryptoKey = Bytes;
  generate_key = λ i. ((i % 256) ∷ [], (i % 256) ∷ []);
  export_raw = λ k. (sum k % 256) ∷ replicate 64 0;
  export_jwk = λ k. (lit "d", k) ∷ (lit "key_ops", []) ∷ [];
  import_raw = λ a raw. some (take 1 raw);
  import_jwk = λ a jwk. Dict.get (lit "d") jwk;
  stringify_jwk = λ jwk. join (members jwk);
  parse_jwk = λ text. some (from_members (unjoin text));
  ecdh_bits = λ priv key n. some (replicate 32 (sum priv * sum key % 256));
  hkdf_bits = λ ikm salt info n. replicate (n / 8) ((sum ikm + sum salt) % 256);
  import_hmac = import_key;
  hmac_sign = λ k m. replicate 32 ((sum k + sum m) % 256);
  import_aes = λ k. some k;
  aes_encrypt = λ k iv m. bits (sum k ∷ m);
  aes_decrypt = λ k iv c. open_tagged (sum k) (unbits c);
  ecdsa_sign = λ k m. ((sum k + sum m) % 256) ∷ [];
  ecdsa_verify = λ k sig m. some (str_eq sig (((sum k + sum m) % 256) ∷ []));
  sha512 = λ m. replicate 64 (sum m % 256);
  random_values = λ draw n. replicate n (draw % 256);
  utf8_encode = λ s. s;
  utf8_decode = λ bs. bs;
}

toy_jwk :
    (i : ℕ)
    → Dict.get (lit "d") (Dict.remove (lit "key_ops") (toy.export_jwk (toy.generate_key i).1))
      ≡ some (toy.generate_key i).1
unfolding Dict.get Dict.remove str_eq
toy_jwk i = refl

toy_open : (t : ℕ) (m : Bytes) → open_tagged t (t ∷ m) ≡ some m
toy_open t m = ground arith

pub toy_laws : IsWebCrypto toy
toy_laws = record {
  parse_stringify = λ jwk.
      ap (λ ss. some (from_members ss)) (unjoin-join (members jwk))
      ∙ ap some (from_members-members jwk);
  import_raw_export = λ a i. ap (λ (b : ℕ). some (b ∷ [])) (omega arith);
  export_raw_bytes = λ i. (omega arith, All-replicate 0 64 (omega arith));
  export_raw_length = λ i. refl;
  import_jwk_export = λ a i. toy_jwk i;
  ecdh_total = λ i j. (_, refl);
  ecdh_comm = λ i j.
      ap (λ (b : ℕ). some (replicate 32 (b % 256)))
        (mul_comm (sum (i % 256 ∷ [])) (sum (j % 256 ∷ [])));
  hkdf_length = λ ikm salt info n. length-replicate (n * 8 / 8) _ ∙ omega arith;
  hkdf_bytes = λ ikm salt info n. All-replicate _ (n / 8) (omega arith);
  import_hmac_total = λ b bs. (b ∷ bs, refl);
  hmac_length = λ k m. refl;
  hmac_bytes = λ k m. All-replicate _ 32 (omega arith);
  import_aes_total = λ bs h. (bs, refl);
  aes_round_trip =
      λ k iv m. ap (open_tagged (sum k)) (unbits-bits (sum k ∷ m)) ∙ toy_open (sum k) m;
  aes_bytes = λ k iv m. bits-IsBytes (sum k ∷ m);
  random_bytes = λ draw n. All-replicate _ n (omega arith);
  sha512_length = λ m. refl;
  verify_sign = λ i m. ap some ((str_eq_iff _ _).1 refl);
  sign_bytes = λ k m. (omega arith, tt);
  utf8_round_trip = λ s h. refl;
}

-- A message as the list of its members; an absent number is the empty text.
abbrev number_text : Option ℕ → Str
number_text none = []
number_text (some n) = n ∷ []

abbrev text_number : Str → Option ℕ
text_number [] = none
text_number (n ∷ s) = some n

abbrev params_texts : Option X3dhParams → List Str
params_texts none = []
params_texts (some p) = p.ik ∷ p.ek ∷ (p.spk_id ∷ []) ∷ number_text p.opk_id ∷ []

abbrev texts_params : List Str → Option X3dhParams
texts_params (ik ∷ ek ∷ (spk ∷ []) ∷ opk ∷ []) =
    some (record { ik = ik; ek = ek; spk_id = spk; opk_id = text_number opk })
texts_params _ = none

abbrev message_texts : WireMessage → List Str
message_texts w = w.h.rk ∷ (w.h.n ∷ []) ∷ (w.h.pn ∷ []) ∷ w.ct ∷ w.iv ∷ params_texts w.params

abbrev texts_message : List Str → Option WireMessage
texts_message (rk ∷ (n ∷ []) ∷ (pn ∷ []) ∷ ct ∷ iv ∷ rest) = some (record {
  h = record { rk = rk; n = n; pn = pn };
  ct = ct;
  iv = iv;
  params = texts_params rest;
})
texts_message _ = none

number_round_trip : (o : Option ℕ) → text_number (number_text o) ≡ o
number_round_trip none = refl
number_round_trip (some n) = refl

params_round_trip : (o : Option X3dhParams) → texts_params (params_texts o) ≡ o
params_round_trip none = refl
params_round_trip (some p) = ap (λ o. some (record p { opk_id = o })) (number_round_trip p.opk_id)

instance abbrev pub toy_json : WireJson
toy_json = record {
  stringify = λ w. bits (join (message_texts w));
  parse = λ text. texts_message (unjoin (unbits text));
}

pub toy_json_laws : IsWireJson toy_json
toy_json_laws = record {
  parse_stringify = λ w.
      ap (λ ns. texts_message (unjoin ns)) (unbits-bits (join (message_texts w)))
      ∙ ap texts_message (unjoin-join (message_texts w))
      ∙ ap (λ o. some (record w { params = o })) (params_round_trip w.params);
  stringify_latin1 = λ w h. bits-IsBytes (join (message_texts w));
}
