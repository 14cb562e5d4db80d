-- ===== src/Tests/Bubble.antt =====
-- The bubble of concrete messages.
use winkd.Prelude.{◌≡◌, refl, some, [], ◌∷◌, lit, str_eq, All}
use winkd.Text.{
  trim, ascii_lower, is_space, trim_start, drop_end, starts_with, ends_with, drop_last, includes,
}
use winkd.Text.Split.{run, pieces, split_by, has_match}
use winkd.Emoji.{emoji_asset_url, asset_url, is_token, is_slug_char, closes}
use winkd.Bubble.{Part, parts_shown, part_shown, any_image, is_image_asset_url, format_bytes}
use winkd.Bubble.Urls.{
  prefixed, token_match, url_match, has_url, body_parts, matches_in, has_extension,
}
use winkd.Bubble.Links.{AddressIsWeb, parts_shown-AddressIsWeb}
use winkd.Codec.Decimal.{decimal}
use winkd.Tests.Socket.{ascii_only}

-- A time of day becomes a link.
time_of_day :
    parts_shown (lit "at 10:30:00")
    ≡ Part.span (lit "at 10") ∷ Part.link (lit ":30:") ∷ Part.span (lit "00") ∷ []
unfolding parts_shown part_shown any_image is_image_asset_url prefixed token_match url_match has_url
    body_parts matches_in has_extension run pieces split_by has_match emoji_asset_url asset_url
    is_token is_slug_char closes ascii_lower is_space trim trim_start drop_end starts_with ends_with
    drop_last includes str_eq
time_of_day = refl

-- A quotient is rounded to one digit.
kilobytes : format_bytes (some 1588) ≡ lit "1.6 KB"
unfolding format_bytes decimal
kilobytes = refl

parts_shown-AddressIsWeb_example :
    All AddressIsWeb
      (parts_shown (lit "javascript:x https://a.b/c.png :classic-smile:, at 10:30:00"))
parts_shown-AddressIsWeb_example =
    parts_shown-AddressIsWeb (lit "javascript:x https://a.b/c.png :classic-smile:, at 10:30:00")
