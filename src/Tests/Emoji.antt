-- ===== src/Tests/Emoji.antt =====
-- Concrete texts with emoji.
use winkd.Prelude.{◌≡◌, refl, some, [], ◌∷◌, Str, lit, str_eq, All}
use winkd.Text.{
  trim, ascii_lower, is_space, trim_start, drop_end, starts_with, ends_with, drop_last,
}
use winkd.Auth.{default_supporter_state}
use winkd.Emoji.{emoji_asset_url, asset_url, is_token, is_slug_char, closes}
use winkd.Emoji.Picker.{filtered}
use winkd.Emoji.Picker.Shown.{Shows, filtered-Shows}
use winkd.Text.Split.{run, pieces, split_by}
use winkd.Emoji.Rich.{
  Span, render_rich_emoji_text, split_tokens, split_inline_emoji_token, is_inline_emoji_asset,
  match_length, is_asset_path, is_punctuation,
}
use winkd.Tests.Socket.{ascii_only, ascii_only-IsUnicode}

abbrev greeting : Str
greeting = lit "Hi :classic-smile:, you"

-- The image of the classic smile between two texts.
greeting_rendered :
    render_rich_emoji_text greeting
    ≡ Span.plain (lit "Hi ")
      ∷ Span.emoji (lit "https://github.com/bernzrdo/msn-emoticons/raw/main/original/smile.png") []
      ∷ Span.plain (lit ", you")
      ∷ []
unfolding render_rich_emoji_text split_tokens split_inline_emoji_token is_inline_emoji_asset pieces
    match_length run is_asset_path is_punctuation emoji_asset_url asset_url is_token is_slug_char
    closes ascii_lower is_space trim trim_start drop_end starts_with ends_with drop_last str_eq
    split_by
greeting_rendered = refl

filtered-Shows_example :
    All (λ i. Shows i) (filtered (lit "smile") 0 (some default_supporter_state))
filtered-Shows_example =
    filtered-Shows ascii_only-IsUnicode (lit "smile") 0 (some default_supporter_state)
