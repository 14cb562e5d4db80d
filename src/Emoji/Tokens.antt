-- ===== src/Emoji/Tokens.antt =====
-- The tokens that the picker inserts, and what they show.
use winkd.Prelude.{
  ℕ, ◌<◌, ◌≡◌, refl, ◌∙◌, true, some, [], ◌∷◌, ◌++◌, Str, lit, str_eq, All, All-append, arith,
}
use winkd.Text.{is_space, trim, trim_start, starts_with, ascii_lower, Unicode, IsUnicode, IsAscii}
use winkd.Text.Laws.{drop_end-append, ends_with-append, drop_last-append, map-fixed}
use winkd.Emoji.{
  EmojiItem, is_slug_char, closes, is_token, asset_url, emoji_asset_url, insert_value, preview,
  msn_emoticon_base_url, without_png,
}

abbrev pub IsSlug : Str → Type 0
IsSlug s = All (λ c. is_slug_char c ≡ true) s

closes-IsSlug : (s : Str) → IsSlug s → closes (s ++ lit ":") ≡ true
unfolding closes is_slug_char str_eq
closes-IsSlug [] h = refl
closes-IsSlug (c ∷ s) h = rw h.0 (closes-IsSlug s h.1)

slug_char_small : (c : ℕ) → is_slug_char c ≡ true → (c < 128) × (ascii_lower c ≡ c)
unfolding is_slug_char ascii_lower
slug_char_small c h = ground arith

-- A slug is ASCII, and in lower case.
slug_lower : (s : Str) → IsSlug s → IsAscii s × All (λ c. ascii_lower c ≡ c) s
slug_lower [] h = (tt, tt)
slug_lower (c ∷ s) h =
    let (small, same) = slug_char_small c h.0 in
    let (smalls, sames) = slug_lower s h.1 in ((small, smalls), (same, sames))

asset_url-classic :
    (s : Str) (c : ℕ)
    → IsSlug (c ∷ s)
    → asset_url (lit ":classic-" ++ (c ∷ s) ++ lit ":")
      ≡ some (msn_emoticon_base_url ++ lit "/" ++ (c ∷ s) ++ lit ".png")
unfolding asset_url is_token starts_with closes is_slug_char
asset_url-classic s c h =
    rw
      (
        closes-IsSlug (c ∷ s) h,
        ends_with-append (lit ":classic-" ++ (c ∷ s)) (lit ":"),
        drop_last-append (lit ":classic-" ++ (c ∷ s)) 58,
      )
      refl

asset_url-spikey :
    (s : Str) (c : ℕ)
    → IsSlug (c ∷ s)
    → asset_url (lit ":spikey-" ++ (c ∷ s) ++ lit ":")
      ≡ some (lit "/emoji-packs/spikey/" ++ (c ∷ s) ++ lit ".png")
unfolding asset_url is_token starts_with closes is_slug_char
asset_url-spikey s c h =
    rw
      (
        closes-IsSlug (c ∷ s) h,
        ends_with-append (lit ":spikey-" ++ (c ∷ s)) (lit ":"),
        drop_last-append (lit ":spikey-" ++ (c ∷ s)) 58,
      )
      refl

trim_token : (s : Str) → trim (58 ∷ s ++ lit ": ") ≡ 58 ∷ s ++ lit ":"
unfolding trim trim_start is_space
trim_token s = drop_end-append is_space (58 ∷ s) 58 32 refl refl

module _ ⦃tables : Unicode⦄ (law : IsUnicode tables) where
  -- A text of colons and slugs is in lower case.
  lower_token : (s : Str) → IsSlug s → tables.to_lower_case (58 ∷ s ++ lit ":") ≡ 58 ∷ s ++ lit ":"
  unfolding ascii_lower
  lower_token s h =
      let (small, same) = slug_lower s h in
      let colon : IsAscii (lit ":") = (omega arith, tt) in
      law.lower_ascii (58 ∷ s ++ lit ":")
        (omega arith, All-append (λ c. c < 128) s (lit ":") small colon)
      ∙ map-fixed ascii_lower (58 ∷ s ++ lit ":")
          (refl, All-append (λ c. ascii_lower c ≡ c) s (lit ":") same (refl, tt))

  -- What the picker inserts for a classic emoticon shows the image of its preview, if the file name
  -- is not empty and has only small letters, digits and dashes. Assumes `IsUnicode`.
  pub emoji_asset_url-insert_value :
      (name filename : Str) (c : ℕ)
      → IsSlug (c ∷ filename)
      → emoji_asset_url (insert_value (EmojiItem.classic name (c ∷ filename)))
        ≡ some (preview (EmojiItem.classic name (c ∷ filename)))
  unfolding emoji_asset_url insert_value preview is_slug_char
  emoji_asset_url-insert_value name filename c h =
      rw
        (
          trim_token (lit "classic-" ++ (c ∷ filename)),
          lower_token (lit "classic-" ++ (c ∷ filename))
              (refl, (refl, (refl, (refl, (refl, (refl, (refl, (refl, h)))))))),
          asset_url-classic filename c h,
        )
        refl

  -- What the picker inserts for a Spikey emoticon shows the file whose name is that of the preview
  -- without `.png`, in lower case, and with `.png` again, if that lower case name is not empty and
  -- has only small letters, digits and dashes. Assumes `IsUnicode`.
  pub emoji_asset_url-insert_value-spikey :
      (name filename slug : Str) (c : ℕ)
      → tables.to_lower_case (without_png filename) ≡ c ∷ slug
      → IsSlug (c ∷ slug)
      → emoji_asset_url (insert_value (EmojiItem.spikey name filename))
        ≡ some (lit "/emoji-packs/spikey/" ++ (c ∷ slug) ++ lit ".png")
  unfolding emoji_asset_url insert_value is_slug_char
  emoji_asset_url-insert_value-spikey name filename slug c e h =
      rw
        (
          e,
          trim_token (lit "spikey-" ++ (c ∷ slug)),
          lower_token (lit "spikey-" ++ (c ∷ slug))
              (refl, (refl, (refl, (refl, (refl, (refl, (refl, h))))))),
          asset_url-spikey slug c h,
        )
        refl
