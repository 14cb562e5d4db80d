-- ===== src/Bubble.antt =====
-- apps/web/src/components/MessageBubble.tsx: what the bubble of a message shows. Styles are left out.
pub mod Urls
pub mod Matching
pub mod Links
use winkd.Prelude.{
  ℕ, zero, suc, ◌+◌, ◌*◌, ◌/◌, ◌%◌, Bool, true, false, not, ◌&&◌, ◌||◌, Option, none, some, List,
  [], ◌∷◌, ◌++◌, map, Str, lit, leb, ltb, ◌==◌, str_eq, if◌then◌else◌, drop, length,
}
use winkd.Codec.Decimal.{decimal}
use winkd.Text.{trim, drop_end, starts_with, includes, Unicode}
use winkd.Messages.{Message, Member, MessageType, text, winkd_type, nudge, system}
use winkd.Emoji.{emoji_asset_url}
use winkd.Bubble.Urls.{
  has_url, body_parts, matches_in, has_extension, should_hide_companion_gif_link,
}
use winkd.Emoji.Rich.{Span, render_rich_emoji_text, is_punctuation}

abbrev is_some {ℓ} : {A : Type ℓ} → Option A → Bool
is_some none = false
is_some (some a) = true

-- A number of tenths, as `toFixed(1)` prints it.
abbrev tenths : ℕ → Str
tenths n = decimal (n / 10) ++ b'.' ∷ decimal (n % 10)

-- `formatBytes`. A quotient by 1024 or 1024 ^ 2 is exact, and `toFixed` rounds halves up.
unfoldable pub format_bytes : Option ℕ → Str
format_bytes none = []
format_bytes (some zero) = []
format_bytes (some (suc n)) =
    let bytes = suc n in
    if ltb bytes 1024
    then decimal bytes ++ lit " B"
    else if ltb bytes (1024 * 1024)
    then tenths ((bytes * 20 + 1024) / 2048) ++ lit " KB"
    else tenths ((bytes * 20 + 1024 * 1024) / (2048 * 1024)) ++ lit " MB"

-- What a part of the body becomes.
pub data Part : Type 0 where
  span : Str → Part
  emoji : List Span → (trailing : Str) → Part
  image : (src : Str) → Part
  hidden : Part
  link : (href : Str) → Part

pub data Preview : Type 0 where
  image_preview frame_preview no_preview : Preview

pub record ShownAttachment : Type 0 where
  pub src : Str
  pub name : Str
  pub size : Str
  pub preview : Preview

pub data Bubble : Type 0 where
  winkd_note nudge_note : (is_me : Bool) → Bubble
  system_note : Option Str → Bubble
  nothing : Bubble
  text_bubble : List Part → Option ShownAttachment → Bubble

abbrev value_of {ℓ} : {A : Type ℓ} → Member A → Option A
value_of Member.absent = none
value_of Member.undefined = none
value_of (Member.own a) = some a

-- `a || b` on texts that may be missing
abbrev or_text : Option Str → Option Str → Option Str
or_text none b = b
or_text (some []) b = b
or_text (some (c ∷ s)) b = some (c ∷ s)

abbrev truthy_text : Option Str → Option Str
truthy_text o = or_text o none

abbrev text_or : Str → Option Str → Str
text_or d o = elim (truthy_text o) [ none ↦ d | some s ↦ s ]

-- `canInlinePreview`, of an attachment that there is, and which element shows it.
unfoldable pub preview_of : (mime : Str) → Preview
preview_of mime =
    if starts_with (lit "image/") mime
    then image_preview
    else if starts_with (lit "video/") mime
        || starts_with (lit "audio/") mime
        || str_eq mime (lit "application/pdf")
        || starts_with (lit "text/") mime
    then frame_preview
    else no_preview

abbrev size_text : Option ℕ → Str
size_text none = []
size_text (some zero) = []
size_text (some (suc n)) = b'(' ∷ format_bytes (some (suc n)) ++ lit ")"

abbrev attachment_at : Option Str → Message → Option ShownAttachment
attachment_at none m = none
attachment_at (some src) m = some (record {
  src = src;
  name = text_or (lit "attachment") (value_of m.media_name);
  size = size_text (value_of m.media_size);
  preview = preview_of (text_or [] (value_of m.media_mime));
})

unfoldable pub attachment_in : Message → Option ShownAttachment
attachment_in m =
    attachment_at (truthy_text (or_text (value_of m.media_data) (value_of m.media_url))) m

abbrev or_self : Option Str → Str → Str
or_self none s = s
or_self (some t) s = t

module _ ⦃tables : Unicode⦄ where
  unfoldable pub is_image_asset_url : Str → Bool
  is_image_asset_url raw =
      if is_some (emoji_asset_url raw)
      then true
      else let normalized = tables.to_lower_case raw in
        has_extension normalized || includes (lit "/media") normalized

  unfoldable pub is_inline_emoji_asset : Str → Bool
  is_inline_emoji_asset raw =
      if is_some (emoji_asset_url raw)
      then true
      else let normalized = tables.to_lower_case raw in
        starts_with (lit "/emoji-packs/") normalized
        || starts_with (lit "/msn-emoticons/") normalized
        || includes (lit "/emoji-packs/") normalized
        || includes (lit "/msn-emoticons/") normalized
        || includes (lit "/msn-emoticons/raw/main/original/") normalized

  abbrev asset_without : (trimmed without : Str) → Option Str × Str
  asset_without trimmed [] = (none, [])
  asset_without trimmed (c ∷ s) =
      if is_inline_emoji_asset (c ∷ s) && is_image_asset_url (c ∷ s)
      then (some (c ∷ s), drop (length (c ∷ s)) trimmed)
      else (none, [])

  -- `splitInlineEmojiToken`
  unfoldable pub split_inline_emoji_token : Str → Option Str × Str
  split_inline_emoji_token raw =
      let trimmed = trim raw in
      if is_inline_emoji_asset trimmed && is_image_asset_url trimmed
      then (some trimmed, [])
      else asset_without trimmed (drop_end is_punctuation trimmed)

  -- `asset` is shown as an emoji if it is not empty.
  abbrev shown_image : Str → Option Str × Str → Part
  shown_image part (none, trailing) = Part.image part
  shown_image part (some [], trailing) = Part.image part
  shown_image part (some (c ∷ s), trailing) =
      Part.emoji (render_rich_emoji_text (or_self (emoji_asset_url (c ∷ s)) (c ∷ s))) trailing

  unfoldable pub part_shown : (has_image_assets : Bool) → Str → Part
  part_shown has_image_assets part =
      if not (has_url part)
      then Part.span part
      else if is_image_asset_url part
      then shown_image part (split_inline_emoji_token part)
      else if has_image_assets && should_hide_companion_gif_link part
      then Part.hidden
      else Part.link part

  unfoldable pub any_image : List Str → Bool
  any_image [] = false
  any_image (p ∷ ps) = let rest = any_image ps in is_image_asset_url p || rest

  unfoldable pub parts_shown : Str → List Part
  parts_shown body =
      let parts = body_parts body in map (part_shown (any_image (matches_in parts))) parts

  -- `none` is the TypeError of a text without a body.
  abbrev text_bubble_of : Option Str → Message → Option Bubble
  text_bubble_of none m = none
  text_bubble_of (some body) m = some (Bubble.text_bubble (parts_shown body) (attachment_in m))

  -- `MessageBubble`
  unfoldable pub message_bubble : Message → (is_me : Bool) → Option Bubble
  message_bubble m is_me = elim m.type [
    | winkd_type ↦ some (Bubble.winkd_note is_me)
    | nudge ↦ some (Bubble.nudge_note is_me)
    | system ↦ some (Bubble.system_note (value_of m.body))
    | text ↦ text_bubble_of (value_of m.body) m
    | _ ↦ some Bubble.nothing
  ]
