-- ===== src/Emoji/Picker.antt =====
-- What the picker of apps/web/src/components/EmojiPicker.tsx shows.
pub mod Shown
use winkd.Prelude.{
  ℕ, Bool, true, false, ◌||◌, Option, none, some, List, [], ◌∷◌, ◌++◌, map, Str, lit, str_eq,
  get_elem?, if◌then◌else◌,
}
use winkd.Text.{trim, Unicode}
use winkd.Auth.{Tier, free, plus, SupporterState}
use winkd.Emoji.{EmojiItem, is_found}
use winkd.Emoji.Catalogue.{Category, classic_category, spikey_category}
use winkd.Emoji.UnicodeCatalogue.{
  smileys_category, gestures_category, hearts_category, people_category, nature_category,
  food_category, activities_category, travel_category, objects_category, symbols_category,
}

abbrev pub all_categories : List Category
all_categories =
    classic_category ∷ smileys_category ∷ gestures_category ∷ hearts_category ∷ people_category
    ∷ nature_category ∷ food_category ∷ activities_category ∷ travel_category ∷ objects_category
    ∷ symbols_category ∷ []

abbrev tier_text : Tier → Str
tier_text free = lit "free"
tier_text plus = lit "plus"

abbrev contains : Str → List Str → Bool
contains s [] = false
contains s (t ∷ ts) = str_eq t s || contains s ts

module _ ⦃tables : Unicode⦄ where
  -- `spikeyUnlocked`
  unfoldable pub spikey_unlocked : Option SupporterState → Bool
  spikey_unlocked none = false
  spikey_unlocked (some supporter) =
      let extras = map tables.to_lower_case supporter.purchased_extras in
      str_eq (tables.to_lower_case (trim (tier_text supporter.tier))) (lit "plus")
      || contains (lit "emoji-pack-spikey") extras
      || contains (lit "emoji_pack_spikey") extras
      || contains (lit "spikey") extras

  -- `categories`
  unfoldable pub categories : Option SupporterState → List Category
  categories supporter =
      if spikey_unlocked supporter then all_categories ++ spikey_category ∷ [] else all_categories

  abbrev pub all_found : Str → List EmojiItem → List EmojiItem
  all_found q [] = []
  all_found q (i ∷ is) = if is_found q i then i ∷ all_found q is else all_found q is

  abbrev pub found_in : Str → List Category → List EmojiItem
  found_in q [] = []
  found_in q (c ∷ cs) = all_found q c.emojis ++ found_in q cs

  abbrev pub emojis_or_empty : Option Category → List EmojiItem
  emojis_or_empty none = []
  emojis_or_empty (some c) = c.emojis

  abbrev pub search_for : Str → ℕ → List Category → List EmojiItem
  search_for [] active cs = emojis_or_empty (get_elem? cs active)
  search_for (c ∷ q) active cs = found_in (c ∷ q) cs

  -- `filtered`: the items that are shown for a search, or of the active category.
  unfoldable pub filtered : (search : Str) → (active : ℕ) → Option SupporterState → List EmojiItem
  filtered search active supporter =
      search_for (tables.to_lower_case (trim search)) active (categories supporter)
