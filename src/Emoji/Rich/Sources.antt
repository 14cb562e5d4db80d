-- ===== src/Emoji/Rich/Sources.antt =====
-- Where the images come from that apps/web/src/components/RichEmojiText.tsx puts into a text.
use winkd.Prelude.{
  ◌≡◌, refl, Bool, true, ◌&&◌, ◌||◌, Option, none, some, List, [], ◌∷◌, ◌++◌, Str, lit, All,
  Bool-cases, Option-cases, inl, inr, subst, drop, arith,
}
use winkd.Text.{trim, drop_end, starts_with, ends_with, drop_last, Unicode}
use winkd.Emoji.{
  emoji_asset_url, asset_url, url_if_slug, is_token, classic_token_prefix, spikey_token_prefix,
  msn_emoticon_base_url,
}
use winkd.Emoji.Rich.{
  Span, or_self, is_asset_path, is_inline_emoji_asset, without_punctuation,
  split_inline_emoji_token, span_of, spans_of, is_punctuation, split_tokens, render_rich_emoji_text,
}

-- One of the hosts or folders that images may come from: no other scheme than these.
unfoldable pub is_image_source : Str → Bool
is_image_source s =
    starts_with (lit "http://") s
    || starts_with (lit "https://") s
    || starts_with (lit "/emoji-packs/") s
    || starts_with (lit "/msn-emoticons/") s

is_asset_path-is_image_source : (s : Str) → is_asset_path s ≡ true → is_image_source s ≡ true
unfolding is_asset_path is_image_source
is_asset_path-is_image_source s h = ground (arith, h)

url_if_slug_classic :
    (slug u : Str)
    → url_if_slug (msn_emoticon_base_url ++ lit "/") slug ≡ some u
    → is_image_source u ≡ true
unfolding is_image_source starts_with
url_if_slug_classic [] u e = cc
url_if_slug_classic (c ∷ s) u e =
    let same : (msn_emoticon_base_url ++ lit "/") ++ (c ∷ s) ++ lit ".png" ≡ u = cc e in
    subst (λ v. is_image_source v ≡ true) same refl

url_if_slug_spikey :
    (slug u : Str)
    → url_if_slug (lit "/emoji-packs/spikey/") slug ≡ some u
    → is_image_source u ≡ true
unfolding is_image_source starts_with
url_if_slug_spikey [] u e = cc
url_if_slug_spikey (c ∷ s) u e =
    let same : lit "/emoji-packs/spikey/" ++ (c ∷ s) ++ lit ".png" ≡ u = cc e in
    subst (λ v. is_image_source v ≡ true) same refl

asset_url-is_image_source : (n u : Str) → asset_url n ≡ some u → is_image_source u ≡ true
unfolding asset_url
asset_url-is_image_source n u e = elim (Bool-cases (is_token n)) [
  | inr f ↦ absurd (let z : none ≡ some u = rw f at e in cc z)
  | inl t ↦ elim (Bool-cases (starts_with classic_token_prefix n && ends_with (lit ":") n)) [
    | inl f ↦ url_if_slug_classic (drop 9 (drop_last n)) u (rw (t, f) at e)
    | inr f ↦ elim (Bool-cases (starts_with spikey_token_prefix n && ends_with (lit ":") n)) [
      | inl g ↦ url_if_slug_spikey (drop 8 (drop_last n)) u (rw (t, f, g) at e)
      | inr g ↦ absurd (let z : none ≡ some u = rw (t, f, g) at e in cc z)
    ]
  ]
]

module _ ⦃tables : Unicode⦄ where
  -- The address of an emoji's image is one of those, as it is or in lower case.
  abbrev pub HasImageSource : Span → Type 0
  HasImageSource (Span.plain text) = Unit
  HasImageSource (Span.emoji src trailing) =
      (is_image_source src || is_image_source (tables.to_lower_case src)) ≡ true

  source_shown :
      (a trailing : Str)
      → is_inline_emoji_asset a ≡ true
      → HasImageSource (Span.emoji (or_self (emoji_asset_url a) a) trailing)
  unfolding is_inline_emoji_asset emoji_asset_url
  source_shown a trailing h = elim (Option-cases (emoji_asset_url a)) [
    | inr (u, e) ↦
        let r = asset_url-is_image_source (tables.to_lower_case (trim a)) u e in
        rw e (ground (arith, r))
    | inl e ↦
        let r = is_asset_path-is_image_source (tables.to_lower_case a) (rw e at h) in
        rw e (ground (arith, r))
  ]

  abbrev AssetIsInline : Option Str × Str → Type 0
  AssetIsInline (none, trailing) = Unit
  AssetIsInline (some a, trailing) = is_inline_emoji_asset a ≡ true

  without_punctuation-AssetIsInline :
      (trimmed r : Str) → AssetIsInline (without_punctuation trimmed r)
  without_punctuation-AssetIsInline trimmed [] = tt
  without_punctuation-AssetIsInline trimmed (c ∷ s) =
      elim (Bool-cases (is_inline_emoji_asset (c ∷ s))) [ inl f ↦ rw f f | inr f ↦ rw f tt ]

  split-AssetIsInline : (raw : Str) → AssetIsInline (split_inline_emoji_token raw)
  unfolding split_inline_emoji_token
  split-AssetIsInline raw = elim (Bool-cases (is_inline_emoji_asset (trim raw))) [
    | inl f ↦ rw f f
    | inr f ↦
        rw f (without_punctuation-AssetIsInline (trim raw) (drop_end is_punctuation (trim raw)))
  ]

  span_of-HasImageSource :
      (token : Str) (r : Option Str × Str) → AssetIsInline r → HasImageSource (span_of token r)
  span_of-HasImageSource token (none, trailing) h = tt
  span_of-HasImageSource token (some [], trailing) h = tt
  span_of-HasImageSource token (some (c ∷ s), trailing) h = source_shown (c ∷ s) trailing h

  spans_of-HasImageSource : (tokens : List Str) → All HasImageSource (spans_of tokens)
  spans_of-HasImageSource [] = tt
  spans_of-HasImageSource ([] ∷ tokens) = spans_of-HasImageSource tokens
  spans_of-HasImageSource ((c ∷ s) ∷ tokens) = (
    span_of-HasImageSource (c ∷ s) _ (split-AssetIsInline (c ∷ s)),
    spans_of-HasImageSource tokens,
  )

  pub render_rich_emoji_text-HasImageSource :
      (text : Str) → All HasImageSource (render_rich_emoji_text text)
  unfolding render_rich_emoji_text
  render_rich_emoji_text-HasImageSource text = spans_of-HasImageSource (split_tokens text)
