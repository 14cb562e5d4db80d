-- ===== src/Sidebar/Qr.antt =====
-- From the QR code of one person to the contact request of another.
use winkd.Prelude.{
  ℕ, ◌<◌, ◌≡◌, refl, Bool, true, false, ◌&&◌, ◌||◌, some, [], ◌∷◌, ◌++◌, Str, leb, ◌==◌, All,
  All-append, arith,
}
use winkd.Text.{is_space, trim, trim_start, starts_with, ascii_lower, Unicode, IsUnicode, IsAscii}
use winkd.Text.Laws.{drop_end-kept}
use winkd.Sidebar.{
  Command, AddContact, Parsed, decoded_id, UriCodec, qr_prefix, is_id_end, is_winkd_id,
  parse_trimmed, parse_qr_to_winkd_id, handle_use_qr_payload, handle_add_contact,
  send_contact_request, my_qr_data,
}

-- The characters that `encodeURIComponent` leaves, and the percent sign.
unfoldable pub is_encoded : ℕ → Bool
is_encoded c =
    (leb 97 c && leb c 122)
    || (leb 65 c && leb c 90)
    || (leb 48 c && leb c 57)
    || c == 45
    || c == 95
    || c == 46
    || c == 33
    || c == 126
    || (leb 39 c && leb c 42)
    || c == 37

-- The documented behaviour that is relied on.
pub record IsUriCodec (uri : UriCodec) : Type 0 where
  pub all_encoded :
      (s : Str) → IsAscii s → All (λ c. is_encoded c ≡ true) (uri.encode_uri_component s)
  pub decode-encode :
      (s : Str) → IsAscii s → uri.decode_uri_component (uri.encode_uri_component s) ≡ some s

encoded_char :
    (c : ℕ) → is_encoded c ≡ true → (is_space c ≡ false) × (c < 128) × ((c == 35) ≡ false)
unfolding is_encoded is_space
encoded_char c h = ground arith

encoded_text :
    (s : Str)
    → All (λ c. is_encoded c ≡ true) s
    → All (λ c. is_space c ≡ false) s × IsAscii s × (is_id_end s ≡ false)
unfolding is_id_end
encoded_text [] h = (tt, tt, refl)
encoded_text (c ∷ s) h =
    let (space, small, hash) = encoded_char c h.0 in
    let (spaces, smalls, rest) = encoded_text s h.1 in
    ((space, spaces), (small, smalls), rw (hash, rest) refl)

module _ ⦃tables : Unicode⦄ ⦃uri : UriCodec⦄ (unicode_law : IsUnicode tables)
    (uri_law : IsUriCodec uri) where
  parse-prefixed :
      (e : Str)
      → All (λ c. is_encoded c ≡ true) e
      → parse_qr_to_winkd_id (qr_prefix ++ e) ≡ decoded_id (uri.decode_uri_component e)
  unfolding parse_qr_to_winkd_id parse_trimmed trim trim_start is_space is_winkd_id is_id_end
      starts_with ascii_lower
  parse-prefixed e h =
      let (spaces, ascii, no_hash) = encoded_text e h in
      let start : All (λ c. is_space c ≡ false) qr_prefix = ground arith in
      let small : IsAscii qr_prefix = ground arith in
      rw
        (
          drop_end-kept is_space (qr_prefix ++ e)
              (All-append (λ c. is_space c ≡ false) qr_prefix e start spaces),
          no_hash,
          unicode_law.lower_ascii (qr_prefix ++ e)
              (All-append (λ c. c < 128) qr_prefix e small ascii),
        )
        refl

  -- When the QR payload in the dialog is the one that a person's own sidebar shows for their Winkd ID,
  -- using it and then adding the contact sends one request, for that ID, and no error is shown. The
  -- ID is ASCII, has the form of a Winkd ID and no spaces around it. Assumes `IsUnicode` and
  -- `IsUriCodec`.
  pub handle_add_contact-handle_use_qr_payload :
      (id : Str) (d : AddContact)
      → IsAscii id
      → is_winkd_id id ≡ true
      → trim id ≡ id
      → d.qr_scan_input ≡ my_qr_data id
      → ((handle_add_contact (handle_use_qr_payload d)).1 ≡ Command.add_contact id ∷ [])
        × ((handle_add_contact (handle_use_qr_payload d)).0.error ≡ [])
        × ((handle_add_contact (handle_use_qr_payload d)).0.is_sent ≡ true)
  unfolding handle_add_contact handle_use_qr_payload send_contact_request my_qr_data
  handle_add_contact-handle_use_qr_payload id d ascii valid trimmed scanned =
      let parsed : parse_qr_to_winkd_id d.qr_scan_input ≡ Parsed.winkd_id id =
        rw
          (
            scanned,
            parse-prefixed (uri.encode_uri_component id) (uri_law.all_encoded id ascii),
            uri_law.decode-encode id ascii,
            valid,
          )
          refl in
      rw (parsed, trimmed, valid) (refl, refl, refl)
