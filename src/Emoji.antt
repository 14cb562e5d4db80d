-- ===== src/Emoji.antt =====
-- Emoji as tokens in a text: apps/web/src/components/emojiAssets.ts and the tokens that
-- EmojiPicker.tsx inserts.
pub mod Tokens
pub mod Catalogue
pub mod UnicodeCatalogue
pub mod Picker
pub mod Rich
use winkd.Prelude.{
  ℕ, suc, ◌-◌, Bool, true, false, not, ◌&&◌, ◌||◌, Option, none, some, List, [], ◌∷◌, ◌++◌, map,
  Str, lit, str_eq, leb, ◌==◌, if◌then◌else◌, drop, get_elem?,
}
use winkd.Text.{trim, starts_with, ends_with, drop_last, includes, ascii_lower, Unicode}

abbrev pub msn_emoticon_base_url : Str
msn_emoticon_base_url = lit "https://github.com/bernzrdo/msn-emoticons/raw/main/original"

abbrev pub classic_token_prefix : Str
classic_token_prefix = lit ":classic-"

abbrev pub spikey_token_prefix : Str
spikey_token_prefix = lit ":spikey-"

-- `[a-z0-9-]`
unfoldable pub is_slug_char : ℕ → Bool
is_slug_char c = (leb 97 c && leb c 122) || (leb 48 c && leb c 57) || c == 45

-- `[a-z0-9-]*:$`
unfoldable pub closes : Str → Bool
closes [] = false
closes (c ∷ s) = let rest = closes s in if is_slug_char c then rest else (c == 58 && str_eq s [])

-- `/^:[a-z0-9-]+:$/`
unfoldable pub is_token : Str → Bool
is_token (c ∷ d ∷ s) = c == 58 && is_slug_char d && closes s
is_token _ = false

-- `slug ? url : null`
abbrev pub url_if_slug : (before slug : Str) → Option Str
url_if_slug before [] = none
url_if_slug before (c ∷ s) = some (before ++ (c ∷ s) ++ lit ".png")

-- The URL for a token that is trimmed and in lower case.
unfoldable pub asset_url : Str → Option Str
asset_url normalized =
    if not (is_token normalized)
    then none
    else if starts_with classic_token_prefix normalized && ends_with (lit ":") normalized
    then url_if_slug (msn_emoticon_base_url ++ lit "/") (drop 9 (drop_last normalized))
    else if starts_with spikey_token_prefix normalized && ends_with (lit ":") normalized
    then url_if_slug (lit "/emoji-packs/spikey/") (drop 8 (drop_last normalized))
    else none

-- The alternatives of `EmojiItem`.
pub data EmojiItem : Type 0 where
  unicode : (value : Str) → EmojiItem
  classic : (name filename : Str) → EmojiItem
  spikey : (name filename : Str) → EmojiItem

unfoldable pub preview : EmojiItem → Str
preview (EmojiItem.unicode value) = value
preview (EmojiItem.classic name filename) =
    msn_emoticon_base_url ++ lit "/" ++ filename ++ lit ".png"
preview (EmojiItem.spikey name filename) = lit "/emoji-packs/spikey/" ++ filename

-- `filename.replace(/\.png$/i, '')`
unfoldable pub without_png : Str → Str
without_png [] = []
without_png (c ∷ s) =
    let rest = without_png s in
    if str_eq (map ascii_lower (c ∷ s)) (lit ".png") then [] else c ∷ rest

module _ ⦃tables : Unicode⦄ where
  -- `getEmojiAssetUrlFromToken`
  unfoldable pub emoji_asset_url : Str → Option Str
  emoji_asset_url token = asset_url (tables.to_lower_case (trim token))

  unfoldable pub insert_value : EmojiItem → Str
  insert_value (EmojiItem.unicode value) = value
  insert_value (EmojiItem.classic name filename) = lit ":classic-" ++ filename ++ lit ": "
  insert_value (EmojiItem.spikey name filename) =
      lit ":spikey-" ++ tables.to_lower_case (without_png filename) ++ lit ": "

  -- The name contains what is searched for; one of Unicode always passes.
  unfoldable pub is_found : Str → EmojiItem → Bool
  is_found q (EmojiItem.unicode value) = true
  is_found q (EmojiItem.classic name filename) = includes q (tables.to_lower_case name)
  is_found q (EmojiItem.spikey name filename) = includes q (tables.to_lower_case name)
