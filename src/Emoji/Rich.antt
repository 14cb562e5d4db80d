-- ===== src/Emoji/Rich.antt =====
-- apps/web/src/components/RichEmojiText.tsx: the pieces of a text, and the images among them.
pub mod Lossless
pub mod Sources
use winkd.Prelude.{
  ℕ, zero, suc, ◌+◌, Bool, true, false, not, ◌&&◌, ◌||◌, Option, none, some, List, [], ◌∷◌, ◌++◌,
  map, Str, lit, leb, ◌==◌, if◌then◌else◌, drop, length,
}
use winkd.Text.Split.{run, split_by}
use winkd.Text.{is_space, trim, drop_end, starts_with, ascii_lower, Unicode}
use winkd.Emoji.{emoji_asset_url, is_slug_char}

abbrev not_space : ℕ → Bool
not_space c = not (is_space c)

-- A prefix and at least one character that is no space: their length, or 0.
abbrev prefixed_length : (prefix : Str) → Str → ℕ
prefixed_length prefix s =
    if starts_with prefix (map ascii_lower s)
    then (elim (run not_space (drop (length prefix) s)) [
      | zero ↦ 0
      | suc n ↦ length prefix + suc n
    ])
    else 0

abbrev if_colon : ℕ → Str → ℕ
if_colon n [] = 0
if_colon n (c ∷ s) = if c == 58 then n + 2 else 0

-- `:[a-z0-9-]+:`, its length, or 0
abbrev token_length : Str → ℕ
token_length [] = 0
token_length (c ∷ s) =
    if c == 58
    then (elim (run (λ d. is_slug_char (ascii_lower d)) s) [
      | zero ↦ 0
      | suc n ↦ if_colon (suc n) (drop (suc n) s)
    ])
    else 0

abbrev or_length : ℕ → ℕ → ℕ
or_length zero n = n
or_length (suc m) n = suc m

-- The length of what `INLINE_TOKEN_REGEX` matches at the start of the text, or 0.
unfoldable pub match_length : Str → ℕ
match_length s = or_length (prefixed_length (lit "http://") s) (
    or_length (prefixed_length (lit "https://") s) (
      or_length (prefixed_length (lit "/emoji-packs/") s)
        (or_length (prefixed_length (lit "/msn-emoticons/") s) (token_length s))))

-- `text.split(INLINE_TOKEN_REGEX)`
unfoldable pub split_tokens : Str → List Str
split_tokens text = split_by match_length text

-- `[),.;:!?'"`]`
unfoldable pub is_punctuation : ℕ → Bool
is_punctuation c =
    c == 41
    || c == 44
    || c == 46
    || c == 59
    || c == 58
    || c == 33
    || c == 63
    || c == 39
    || c == 34
    || c == 96

-- `.` matches no end of a line.
abbrev is_line_end : ℕ → Bool
is_line_end c = c == 10 || c == 13 || c == 0x2028 || c == 0x2029

-- `(?:\?|$)`
abbrev is_query : Str → Bool
is_query [] = true
is_query (c ∷ s) = c == 63

-- `\.(?:png|gif|webp)(?:\?|$)`
unfoldable pub image_end : Str → Bool
image_end s =
    (starts_with (lit ".png") s && is_query (drop 4 s))
    || (starts_with (lit ".gif") s && is_query (drop 4 s))
    || (starts_with (lit ".webp") s && is_query (drop 5 s))

-- `.+` and an image's end, or `.*` if there was a character before.
unfoldable pub has_image : (before : Bool) → Str → Bool
has_image before [] = false
has_image before (c ∷ s) =
    let rest = has_image true s in (before && image_end (c ∷ s)) || (not (is_line_end c) && rest)

abbrev image_after : (prefix : Str) → Str → Bool
image_after prefix s = starts_with prefix s && has_image false (drop (length prefix) s)

abbrev not_host_end : ℕ → Bool
not_host_end c = not (c == 47) && not (is_space c)

-- `[^/\s]+\/(?:emoji-packs|msn-emoticons)\/.+` and an image's end
abbrev hosted_image : Str → Bool
hosted_image s = elim (run not_host_end s) [
  | zero ↦ false
  | suc n ↦
      image_after (lit "/emoji-packs/") (drop (suc n) s)
      || image_after (lit "/msn-emoticons/") (drop (suc n) s)
]

-- What follows `https?:\/\/`
abbrev after_scheme : (Str → Bool) → Str → Bool
after_scheme test s =
    (starts_with (lit "https://") s && test (drop 8 s))
    || (starts_with (lit "http://") s && test (drop 7 s))

unfoldable pub is_asset_path : (normalized : Str) → Bool
is_asset_path s =
    image_after (lit "/emoji-packs/") s
    || image_after (lit "/msn-emoticons/") s
    || after_scheme
        (λ r. image_after (lit "github.com/bernzrdo/msn-emoticons/raw/main/original/") r) s
    || after_scheme (λ r. hosted_image r) s

abbrev pub is_some {ℓ} : {A : Type ℓ} → Option A → Bool
is_some none = false
is_some (some a) = true

pub data Span : Type 0 where
  plain : Str → Span
  emoji : (src trailing : Str) → Span

abbrev pub or_self : Option Str → Str → Str
or_self none s = s
or_self (some t) s = t

module _ ⦃tables : Unicode⦄ where
  unfoldable pub is_inline_emoji_asset : Str → Bool
  is_inline_emoji_asset token =
      is_some (emoji_asset_url token) || is_asset_path (tables.to_lower_case token)

  -- The asset in a text without its trailing punctuation, and the punctuation.
  abbrev pub without_punctuation : Str → Str → Option Str × Str
  without_punctuation trimmed [] = (none, [])
  without_punctuation trimmed (c ∷ s) =
      if is_inline_emoji_asset (c ∷ s)
      then (some (c ∷ s), drop (length (c ∷ s)) trimmed)
      else (none, [])

  -- `splitInlineEmojiToken`: the asset and the text after it.
  unfoldable pub split_inline_emoji_token : Str → Option Str × Str
  split_inline_emoji_token raw =
      let trimmed = trim raw in
      if is_inline_emoji_asset trimmed
      then (some trimmed, [])
      else without_punctuation trimmed (drop_end is_punctuation trimmed)

  abbrev pub span_of : Str → Option Str × Str → Span
  span_of token (none, trailing) = Span.plain token
  span_of token (some [], trailing) = Span.plain token
  span_of token (some (c ∷ s), trailing) =
      Span.emoji (or_self (emoji_asset_url (c ∷ s)) (c ∷ s)) trailing

  abbrev pub spans_of : List Str → List Span
  spans_of [] = []
  spans_of ([] ∷ tokens) = spans_of tokens
  spans_of ((c ∷ s) ∷ tokens) = span_of (c ∷ s) (split_inline_emoji_token (c ∷ s)) ∷ spans_of tokens

  -- `renderRichEmojiText`
  unfoldable pub render_rich_emoji_text : Str → List Span
  render_rich_emoji_text text = spans_of (split_tokens text)
