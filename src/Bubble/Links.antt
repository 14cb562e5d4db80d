-- ===== src/Bubble/Links.antt =====
-- Which addresses a bubble links to.
use winkd.Prelude.{
  ◌≡◌, inl, inr, Bool, true, ◌&&◌, List, [], ◌∷◌, Str, All, map, Bool-cases, Option, none, some,
}
use winkd.Text.{Unicode}
use winkd.Text.Split.{has_match}
use winkd.Text.Split.Matches.{IsPiece, All-split_by}
use winkd.Bubble.{
  Part, part_shown, parts_shown, any_image, shown_image, is_image_asset_url,
  split_inline_emoji_token,
}
use winkd.Emoji.Rich.Sources.{HasImageSource, render_rich_emoji_text-HasImageSource}
use winkd.Bubble.Urls.{url_match, has_url, body_parts, matches_in, should_hide_companion_gif_link}
use winkd.Bubble.Matching.{is_web_address, url_match-is_web_address, url_match-IsMonotone}

module _ ⦃tables : Unicode⦄ where
  -- The address of a picture or a link is one of those, and each emoji's image is from a host or a
  -- folder that images may come from.
  abbrev pub AddressIsWeb : Part → Type 0
  AddressIsWeb (Part.span text) = Unit
  AddressIsWeb (Part.emoji spans trailing) = All HasImageSource spans
  AddressIsWeb (Part.image src) = is_web_address src ≡ true
  AddressIsWeb Part.hidden = Unit
  AddressIsWeb (Part.link href) = is_web_address href ≡ true

  shown_image-AddressIsWeb :
      (p : Str) (r : Option Str × Str) → is_web_address p ≡ true → AddressIsWeb (shown_image p r)
  shown_image-AddressIsWeb p (none, t) h = h
  shown_image-AddressIsWeb p (some [], t) h = h
  shown_image-AddressIsWeb p (some (c ∷ s), t) h = render_rich_emoji_text-HasImageSource _

  part_shown-AddressIsWeb :
      (b : Bool) (p : Str)
      → IsPiece url_match (λ t. is_web_address t ≡ true) p
      → AddressIsWeb (part_shown b p)
  unfolding part_shown has_url
  part_shown-AddressIsWeb b p (inl plain) = rw plain tt
  part_shown-AddressIsWeb b p (inr web) = elim (Bool-cases (has_match url_match p)) [
    | inr plain ↦ rw plain tt
    | inl found ↦ elim (Bool-cases (is_image_asset_url p)) [
      | inl e ↦ rw (found, e) (shown_image-AddressIsWeb p (split_inline_emoji_token p) web)
      | inr e ↦ elim (Bool-cases (b && should_hide_companion_gif_link p)) [
        | inl g ↦ rw (found, e, g) tt
        | inr g ↦ rw (found, e, g) web
      ]
    ]
  ]

  all_shown :
      (b : Bool) (ps : List Str)
      → All (IsPiece url_match (λ t. is_web_address t ≡ true)) ps
      → All AddressIsWeb (map (part_shown b) ps)
  all_shown b [] h = tt
  all_shown b (p ∷ ps) h = (part_shown-AddressIsWeb b p h.0, all_shown b ps h.1)

  -- Whatever the text of a message: each link that its bubble makes out of it, and each picture that
  -- is not an emoticon, begins with http://, https://, /emoji-packs/, /msn-emoticons/ or a colon; and
  -- the source of each emoticon, as it is or in lower case, with one of these but the colon.
  pub parts_shown-AddressIsWeb : (body : Str) → All AddressIsWeb (parts_shown body)
  unfolding parts_shown body_parts
  parts_shown-AddressIsWeb body =
      all_shown (any_image (matches_in (body_parts body))) (body_parts body) (
        All-split_by url_match (λ t. is_web_address t ≡ true) url_match-is_web_address
          url_match-IsMonotone body)
