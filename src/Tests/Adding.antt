-- ===== src/Tests/Adding.antt =====
-- A concrete dialog that adds a contact, and a concrete file.
use winkd.Prelude.{
  ℕ, ◌+◌, ◌-◌, ◌*◌, ◌/◌, ◌%◌, ◌<◌, ◌≡◌, refl, true, false, Option, none, some, [], ◌∷◌, Str, lit,
  All, ltb, ◌==◌, arith, if◌then◌else◌,
}
use winkd.Text.{trim, trim_start, drop_end, is_space, IsAscii}
use winkd.Chat
use winkd.Composer.{File, Composer, handle_attachment_select}
use winkd.Composer.Attachments.{IsAllowed, handle_attachment_select-IsAllowed}
use winkd.Sidebar.{
  AddContact, by_qr, Command, UriCodec, is_winkd_id, is_id_end, my_qr_data, handle_add_contact,
  handle_use_qr_payload,
}
use winkd.Sidebar.Qr.{is_encoded, IsUriCodec, handle_add_contact-handle_use_qr_payload}
use winkd.Tests.Socket.{ascii_only, ascii_only-IsUnicode}

abbrev hex : ℕ → ℕ
hex d = if ltb d 10 then 48 + d else 55 + d

abbrev unhex : ℕ → ℕ
unhex c = if ltb c 65 then c - 48 else c - 55

-- Every ASCII character as a percent sign and two digits.
abbrev encode : Str → Str
encode [] = []
encode (c ∷ s) = 37 ∷ hex (c / 16) ∷ hex (c % 16) ∷ encode s

abbrev cons_some : ℕ → Option Str → Option Str
cons_some c none = none
cons_some c (some s) = some (c ∷ s)

abbrev decode : Str → Option Str
decode (p ∷ h ∷ l ∷ s) = if p == 37 then cons_some (unhex h * 16 + unhex l) (decode s) else none
decode [] = some []
decode _ = none

instance abbrev pub percent : UriCodec
percent = record { encode_uri_component = encode; decode_uri_component = decode }

hex-encoded : (d : ℕ) → d < 16 → (is_encoded (hex d) ≡ true) × (unhex (hex d) ≡ d)
unfolding is_encoded
hex-encoded d h = ground arith

encode-encoded : (s : Str) → IsAscii s → All (λ c. is_encoded c ≡ true) (encode s)
unfolding is_encoded
encode-encoded [] h = tt
encode-encoded (c ∷ s) h = (
  refl,
  (
    (hex-encoded (c / 16) (omega (arith, h.0))).0,
    ((hex-encoded (c % 16) (omega arith)).0, encode-encoded s h.1),
  ),
)

decode-encode : (s : Str) → IsAscii s → decode (encode s) ≡ some s
decode-encode [] h = refl
decode-encode (c ∷ s) h =
    let high = (hex-encoded (c / 16) (omega (arith, h.0))).1 in
    let low = (hex-encoded (c % 16) (omega arith)).1 in
    let whole : (c / 16) * 16 + c % 16 ≡ c = omega arith in
    rw (decode-encode s h.1, high, low, whole) refl

pub percent-IsUriCodec : IsUriCodec percent
percent-IsUriCodec = record { all_encoded = encode-encoded; decode-encode = decode-encode }

abbrev pub carol_id : Str
carol_id = lit "carol#1234"

abbrev dialog : AddContact
dialog = record {
  shown = true;
  mode = by_qr;
  input = [];
  qr_scan_input = my_qr_data carol_id;
  qr_scan_hint = [];
  error = [];
  is_sent = false;
}

handle_add_contact-handle_use_qr_payload_example :
    ((handle_add_contact (handle_use_qr_payload dialog)).1 ≡ Command.add_contact carol_id ∷ [])
    × ((handle_add_contact (handle_use_qr_payload dialog)).0.error ≡ [])
    × ((handle_add_contact (handle_use_qr_payload dialog)).0.is_sent ≡ true)
unfolding is_winkd_id is_id_end trim trim_start drop_end is_space
handle_add_contact-handle_use_qr_payload_example =
    handle_add_contact-handle_use_qr_payload ascii_only-IsUnicode percent-IsUriCodec carol_id dialog
      (ground arith) refl refl refl

abbrev photo : File
photo = record {
  name = lit "photo.png";
  size = 2000;
  mime = [];
  data_url = some (lit "data:image/png;base64,AAAA");
}

abbrev composer : Composer
composer = record {
  conversation = carol_id;
  winkd_id = lit "me#0000";
  input_value = [];
  attachment_error = none;
  chat = Chat.initial;
}

abbrev stamp : Chat.Stamp
stamp = record { id = lit "m3"; time = lit "T5" }

handle_attachment_select-IsAllowed_example :
    IsAllowed (some photo) composer (handle_attachment_select stamp (some photo) composer)
handle_attachment_select-IsAllowed_example =
    handle_attachment_select-IsAllowed stamp (some photo) composer
