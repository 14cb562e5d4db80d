-- ===== src/Emoji/Catalogue.antt =====
-- The emoticons of apps/web/src/components/EmojiPicker.tsx that are images.
use Prim.Native.String.{String}
use winkd.Prelude.{List, [], ◌∷◌, Str, lit}
use winkd.Emoji.{EmojiItem}

pub record Category : Type 0 where
  pub label : Str
  pub emojis : List EmojiItem

abbrev classic : (name filename : String) → EmojiItem
classic name filename = EmojiItem.classic (lit name) (lit filename)

abbrev spikey : (name filename : String) → EmojiItem
spikey name filename = EmojiItem.spikey (lit name) (lit filename)

abbrev pub classic_category : Category
classic_category = record {
  label = lit "Classic";
  emojis =
      classic "Smile" "smile"
      ∷ classic "Open-mouthed smile" "open-mouthed-smile"
      ∷ classic "Winking smile" "winking-smile"
      ∷ classic "Surprised smile" "surprised-smile"
      ∷ classic "Smile with tongue out" "smile-with-tongue-out"
      ∷ classic "Hot smile" "hot-smile"
      ∷ classic "Angry smile" "angry-smile"
      ∷ classic "Embarrassed smile" "embarrassed-smile"
      ∷ classic "Confused smile" "confused-smile"
      ∷ classic "Sad smile" "sad-smile"
      ∷ classic "Crying face" "crying-face"
      ∷ classic "Disappointed smile" "disappointed-smile"
      ∷ classic "Devil" "devil"
      ∷ classic "Angel" "angel"
      ∷ classic "Red heart" "red-heart"
      ∷ classic "Broken heart" "broken-heart"
      ∷ classic "Messenger" "messenger"
      ∷ classic "Cat face" "cat-face"
      ∷ classic "Dog face" "dog-face"
      ∷ classic "Sleeping half-moon" "sleeping-half-moon"
      ∷ classic "Star" "star"
      ∷ classic "Filmstrip" "filmstrip"
      ∷ classic "Note" "note"
      ∷ classic "E-mail" "e-mail"
      ∷ classic "Red rose" "red-rose"
      ∷ classic "Wilted rose" "wilted-rose"
      ∷ classic "Clock" "clock"
      ∷ classic "Red lips" "red-lips"
      ∷ classic "Gift with a bow" "gift-with-a-bow"
      ∷ classic "Birthday cake" "birthday-cake"
      ∷ classic "Camera" "camera"
      ∷ classic "Light bulb" "light-bulb"
      ∷ classic "Coffee cup" "coffee-cup"
      ∷ classic "Telephone receiver" "telephone-receiver"
      ∷ classic "Left hug" "left-hug"
      ∷ classic "Right hug" "right-hug"
      ∷ classic "Beer mug" "beer-mug"
      ∷ classic "Martini glass" "martini-glass"
      ∷ classic "Boy" "boy"
      ∷ classic "Girl" "girl"
      ∷ classic "Thumbs up" "thumbs-up"
      ∷ classic "Thumbs down" "thumbs-down"
      ∷ classic "Vampire bat" "vampire-bat"
      ∷ classic "Goat" "goat"
      ∷ classic "Sun" "sun"
      ∷ classic "Rainbow" "rainbow"
      ∷ classic "Don't tell anyone smile" "dont-tell-anyone-smile"
      ∷ classic "Baring teeth smile" "baring-teeth-smile"
      ∷ classic "Nerd smile" "nerd-smile"
      ∷ classic "Sarcastic smile" "sarcastic-smile"
      ∷ classic "Secret telling smile" "secret-telling-smile"
      ∷ classic "Sick smile" "sick-smile"
      ∷ classic "Snail" "snail"
      ∷ classic "Turtle" "turtle"
      ∷ classic "Plate" "plate"
      ∷ classic "Bowl" "bowl"
      ∷ classic "Pizza" "pizza"
      ∷ classic "Soccer ball" "soccer-ball"
      ∷ classic "Auto" "auto"
      ∷ classic "Airplane" "airplane"
      ∷ classic "Umbrella" "umbrella"
      ∷ classic "Island with a palm tree" "island-with-a-palm-tree"
      ∷ classic "Computer" "computer"
      ∷ classic "Mobile phone" "mobile-phone"
      ∷ classic "Be right back" "be-right-back"
      ∷ classic "Storm cloud" "storm-cloud"
      ∷ classic "High five" "high-five"
      ∷ classic "Money" "money"
      ∷ classic "Black sheep" "black-sheep"
      ∷ classic "I don't know smile" "i-dont-know-smile"
      ∷ classic "Thinking smile" "thinking-smile"
      ∷ classic "Lightning" "lightning"
      ∷ classic "Party smile" "party-smile"
      ∷ classic "Eye-rolling smile" "eye-rolling-smile"
      ∷ classic "Sleepy smile" "sleepy-smile"
      ∷ classic "Bunny" "bunny"
      ∷ [];
}

abbrev pub spikey_category : Category
spikey_category = record {
  label = lit "Spikey";
  emojis =
      spikey "Spikey Smile" "Smile.png"
      ∷ spikey "Spikey Laugh" "Laugh.png"
      ∷ spikey "Spikey Smirk" "Smirk.png"
      ∷ spikey "Spikey Love" "Love.png"
      ∷ spikey "Spikey Hug" "Hug.png"
      ∷ spikey "Spikey Party" "Party.png"
      ∷ spikey "Spikey Heart" "Heart.png"
      ∷ spikey "Spikey Music" "Music.png"
      ∷ [];
}
