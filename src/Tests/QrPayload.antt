-- ===== src/Tests/QrPayload.antt =====
-- The QR payload of a concrete Winkd ID.
use winkd.Prelude.{◌≡◌, refl, none, some, ◌++◌, lit, drop, str_eq, arith, if◌then◌else◌}
use winkd.Text.{starts_with, ascii_lower}
use winkd.Sidebar.{my_qr_data}
use winkd.Contacts.Manager.QrPayload.{
  UrlParser, IsUrlParser, qr_payload, parse_qr_payload, parse_qr_payload-qr_payload,
}
use winkd.Tests.Socket.{ascii_only}
use winkd.Tests.Adding.{percent, percent-IsUriCodec, carol_id}

instance abbrev add_urls : UrlParser
add_urls = record {
  parse_url = λ raw.
      if starts_with (lit "winkd://add/") raw
      then some (record {
        protocol = lit "winkd:";
        hostname = lit "add";
        pathname = lit "/" ++ drop 12 raw;
      })
      else none;
}

add_urls-IsUrlParser : IsUrlParser add_urls
unfolding starts_with
add_urls-IsUrlParser = record { parse_encoded = λ path h proper. refl }

parse_qr_payload-qr_payload_example :
    (parse_qr_payload (qr_payload carol_id) ≡ some carol_id)
    × (parse_qr_payload (my_qr_data carol_id) ≡ some carol_id)
unfolding str_eq ascii_lower
parse_qr_payload-qr_payload_example =
    parse_qr_payload-qr_payload percent-IsUriCodec add_urls-IsUrlParser carol_id (ground arith) refl
