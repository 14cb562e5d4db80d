-- ===== src/Contacts/Manager/QrPayload.antt =====
-- `ContactManager.qrPayload` and `ContactManager.parseQrPayload` of packages/core/src/contacts/index.ts.
use winkd.Prelude.{
  ◌≡◌, refl, Bool, true, false, ◌||◌, not, Option, none, some, ◌++◌, map, Str, lit, str_eq, drop,
  All, if◌then◌else◌,
}
use winkd.Text.{ascii_lower, IsAscii, Unicode}
use winkd.Sidebar.{UriCodec, my_qr_data}
use winkd.Sidebar.Qr.{is_encoded, IsUriCodec}

-- The members of `new URL(raw)` that are read. The browser's parser is a parameter: it returns
-- nothing where the constructor throws.
pub record UrlParts : Type 0 where
  pub protocol : Str
  pub hostname : Str
  pub pathname : Str

pub record UrlParser : Type 0 where
  pub parse_url : Str → Option UrlParts

module _ ⦃uri : UriCodec⦄ where
  unfoldable pub qr_payload : Str → Str
  qr_payload winkd_id = lit "winkd://add/" ++ uri.encode_uri_component winkd_id

  abbrev id_in : Option UrlParts → Option Str
  id_in none = none
  id_in (some url) =
      if not (str_eq url.protocol (lit "winkd:")) || not (str_eq url.hostname (lit "add"))
      then none
      else uri.decode_uri_component (drop 1 url.pathname)

  -- What throws is caught, and gives null.
  unfoldable pub parse_qr_payload : ⦃urls : UrlParser⦄ → Str → Option Str
  parse_qr_payload ⦃urls⦄ raw = id_in (urls.parse_url raw)

-- A parser of URLs drops such a part of a path, or goes up by it.
abbrev is_dot_part : Str → Bool
is_dot_part s =
    str_eq s (lit ".")
    || str_eq s (lit "..")
    || str_eq s (lit "%2e")
    || str_eq s (lit ".%2e")
    || str_eq s (lit "%2e.")
    || str_eq s (lit "%2e%2e")

abbrev pub is_dot_segment : Str → Bool
is_dot_segment s = is_dot_part (map ascii_lower s)

-- The URL standard, on a scheme that is not special: a path of characters that need no encoding is
-- kept, unless it is a dot segment.
pub record IsUrlParser (urls : UrlParser) : Type 0 where
  pub parse_encoded :
      (path : Str)
      → All (λ c. is_encoded c ≡ true) path
      → is_dot_segment path ≡ false
      → urls.parse_url (lit "winkd://add/" ++ path)
        ≡ some
            (record { protocol = lit "winkd:"; hostname = lit "add"; pathname = lit "/" ++ path })

module _ ⦃tables : Unicode⦄ ⦃uri : UriCodec⦄ ⦃urls : UrlParser⦄ (uri_law : IsUriCodec uri)
    (url_law : IsUrlParser urls) where
  -- `parseQrPayload` reads a Winkd ID back from the payload of its QR code, both from the one that
  -- `qrPayload` makes and from the one that the sidebar of the web client shows. The ID is ASCII and
  -- its encoding no dot segment. Assumes `IsUriCodec` and `IsUrlParser`.
  pub parse_qr_payload-qr_payload :
      (winkd_id : Str)
      → IsAscii winkd_id
      → is_dot_segment (uri.encode_uri_component winkd_id) ≡ false
      → (parse_qr_payload (qr_payload winkd_id) ≡ some winkd_id)
        × (parse_qr_payload (my_qr_data winkd_id) ≡ some winkd_id)
  unfolding parse_qr_payload qr_payload my_qr_data str_eq
  parse_qr_payload-qr_payload winkd_id ascii proper =
      let read =
        url_law.parse_encoded (uri.encode_uri_component winkd_id)
          (uri_law.all_encoded winkd_id ascii) proper in
      (
        rw (read, uri_law.decode-encode winkd_id ascii) refl,
        rw (read, uri_law.decode-encode winkd_id ascii) refl,
      )
