-- ===== src/Emoji/Picker/Shown.antt =====
-- What the items that the picker offers become in a message.
use winkd.Prelude.{
  ℕ, zero, suc, ◌≡◌, refl, Bool, true, false, ◌&&◌, Option, some, List, [], ◌∷◌, ◌++◌, map, Str,
  lit, str_eq, str_eq_iff, ltb, All, All-append, arith, Bool-cases, inl, inr,
}
use winkd.Text.{ascii_lower, trim, Unicode, IsUnicode, IsAscii}
use winkd.Auth.{SupporterState}
use winkd.Emoji.{
  EmojiItem, is_slug_char, emoji_asset_url, insert_value, preview, without_png, is_found,
}
use winkd.Emoji.Tokens.{IsSlug, emoji_asset_url-insert_value, emoji_asset_url-insert_value-spikey}
use winkd.Emoji.Catalogue.{Category, spikey_category}
use winkd.Emoji.Picker.{
  all_categories, categories, spikey_unlocked, all_found, found_in, search_for, filtered,
}

abbrev is_slug : Str → Bool
is_slug [] = true
is_slug (c ∷ s) = is_slug_char c && is_slug s

abbrev is_full_slug : Str → Bool
is_full_slug [] = false
is_full_slug (c ∷ s) = is_slug (c ∷ s)

abbrev is_ascii : Str → Bool
is_ascii [] = true
is_ascii (c ∷ s) = ltb c 128 && is_ascii s

-- The file names that make a token.
unfoldable pub is_good : EmojiItem → Bool
unfolding is_slug_char ascii_lower without_png
is_good (EmojiItem.unicode value) = true
is_good (EmojiItem.classic name filename) = is_full_slug filename
is_good (EmojiItem.spikey name filename) =
    is_ascii (without_png filename)
    && is_full_slug (map ascii_lower (without_png filename))
    && str_eq (map ascii_lower filename) (map ascii_lower (without_png filename) ++ lit ".png")

abbrev all_good : List EmojiItem → Bool
all_good [] = true
all_good (i ∷ is) = is_good i && all_good is

is_slug_lem : (s : Str) → is_slug s ≡ true → IsSlug s
is_slug_lem [] h = tt
is_slug_lem (c ∷ s) h = (ground (arith, h), is_slug_lem s (ground (arith, h)))

is_ascii_lem : (s : Str) → is_ascii s ≡ true → IsAscii s
is_ascii_lem [] h = tt
is_ascii_lem (c ∷ s) h = (ground (arith, h), is_ascii_lem s (ground (arith, h)))

module _ ⦃tables : Unicode⦄ where
  -- What is inserted is itself the preview, or is a token for the image of the preview; for a Spikey
  -- emoticon for the image whose URL is that of the preview in lower case.
  abbrev pub Shows : EmojiItem → Type 0
  Shows (EmojiItem.unicode value) =
      insert_value (EmojiItem.unicode value) ≡ preview (EmojiItem.unicode value)
  Shows (EmojiItem.classic name filename) =
      emoji_asset_url (insert_value (EmojiItem.classic name filename))
      ≡ some (preview (EmojiItem.classic name filename))
  Shows (EmojiItem.spikey name filename) =
      emoji_asset_url (insert_value (EmojiItem.spikey name filename))
      ≡ some (map ascii_lower (preview (EmojiItem.spikey name filename)))

  all_found-All :
      (P : EmojiItem → Type 0) (q : Str) (is : List EmojiItem) → All P is → All P (all_found q is)
  all_found-All P q [] h = tt
  all_found-All P q (i ∷ is) h = elim (Bool-cases (is_found q i)) [
    | inl e ↦ rw e (h.0, all_found-All P q is h.1)
    | inr e ↦ rw e (all_found-All P q is h.1)
  ]

  search_for-All :
      (P : EmojiItem → Type 0) (q : Str) (active : ℕ) (cs : List Category)
      → All (λ (c : Category). All P c.emojis) cs
      → All P (search_for q active cs)
  search_for-All P [] active [] h = tt
  search_for-All P [] zero (c ∷ cs) h = h.0
  search_for-All P [] (suc n) (c ∷ cs) h = search_for-All P [] n cs h.1
  search_for-All P (x ∷ q) active [] h = tt
  search_for-All P (x ∷ q) active (c ∷ cs) h =
      All-append P (all_found (x ∷ q) c.emojis) (found_in (x ∷ q) cs)
        (all_found-All P (x ∷ q) c.emojis h.0) (search_for-All P (x ∷ q) active cs h.1)

module _ ⦃tables : Unicode⦄ (law : IsUnicode tables) where
  classic-Shows :
      (name filename : Str) → is_full_slug filename ≡ true → Shows (EmojiItem.classic name filename)
  classic-Shows name [] h = cc
  classic-Shows name (c ∷ s) h = emoji_asset_url-insert_value law name s c (is_slug_lem (c ∷ s) h)

  spikey-Shows :
      (name filename slug : Str)
      → tables.to_lower_case (without_png filename) ≡ slug
      → is_full_slug slug ≡ true
      → map ascii_lower filename ≡ slug ++ lit ".png"
      → Shows (EmojiItem.spikey name filename)
  unfolding preview ascii_lower
  spikey-Shows name filename [] e full h = cc
  spikey-Shows name filename (c ∷ s) e full h =
      rw (h)
        (emoji_asset_url-insert_value-spikey law name filename s c e (is_slug_lem (c ∷ s) full))

  is_good-Shows : (i : EmojiItem) → is_good i ≡ true → Shows i
  unfolding is_good insert_value preview
  is_good-Shows (EmojiItem.unicode value) h = refl
  is_good-Shows (EmojiItem.classic name filename) h = classic-Shows name filename h
  is_good-Shows (EmojiItem.spikey name filename) h =
      let ascii : is_ascii (without_png filename) ≡ true = ground (arith, h) in
      let full : is_full_slug (map ascii_lower (without_png filename)) ≡ true = ground (arith, h) in
      let same : str_eq (map ascii_lower filename)
            (map ascii_lower (without_png filename) ++ lit ".png")
          ≡ true =
        ground (arith, h) in
      spikey-Shows name filename (map ascii_lower (without_png filename))
        (law.lower_ascii (without_png filename) (is_ascii_lem (without_png filename) ascii)) full
        ((str_eq_iff (map ascii_lower filename)
            (map ascii_lower (without_png filename) ++ lit ".png")).0
          same)

  all_good-Shows : (is : List EmojiItem) → all_good is ≡ true → All (λ i. Shows i) is
  all_good-Shows [] h = tt
  all_good-Shows (i ∷ is) h =
      (is_good-Shows i (ground (arith, h)), all_good-Shows is (ground (arith, h)))

  abbrev good_categories : List Category → Bool
  good_categories [] = true
  good_categories (c ∷ cs) = all_good c.emojis && good_categories cs

  good_categories-Shows :
      (cs : List Category)
      → good_categories cs ≡ true
      → All (λ (c : Category). All (λ i. Shows i) c.emojis) cs
  good_categories-Shows [] h = tt
  good_categories-Shows (c ∷ cs) h =
      (all_good-Shows c.emojis (ground (arith, h)), good_categories-Shows cs (ground (arith, h)))

  -- Every item that the picker shows, for any search, category and supporter: one of Unicode is
  -- inserted as it is shown, a classic one as a token for the image of its preview, and a Spikey one
  -- as a token for the URL of its preview in lower case. Assumes `IsUnicode`.
  pub filtered-Shows :
      (search : Str) (active : ℕ) (supporter : Option SupporterState)
      → All (λ i. Shows i) (filtered search active supporter)
  unfolding filtered categories is_good str_eq
  filtered-Shows search active supporter =
      search_for-All (λ i. Shows i) (tables.to_lower_case (trim search)) active
        (categories supporter)
        (elim (Bool-cases (spikey_unlocked supporter)) [
          | inl e ↦
              rw (e, categories)
                (good_categories-Shows (all_categories ++ spikey_category ∷ []) refl)
          | inr e ↦ rw (e, categories) (good_categories-Shows all_categories refl)
        ])
