-- ===== src/Emoji/UnicodeCatalogue.antt =====
-- The categories of Unicode emoji in apps/web/src/components/EmojiPicker.tsx.
use Prim.Native.Char.{code}
use Prim.Native.String.{String}
use winkd.Prelude.{ℕ, ◌+◌, ◌-◌, ◌/◌, ◌%◌, List, [], ◌∷◌, Str, lit, ltb, if◌then◌else◌}
use winkd.Emoji.{EmojiItem}
use winkd.Emoji.Catalogue.{Category}

-- The UTF-16 code units of a literal.
abbrev units : ℕ → Str → Str
units c s =
    if ltb c 0x10000
    then c ∷ s
    else (0xd800 + (c - 0x10000) / 0x400) ∷ (0xdc00 + (c - 0x10000) % 0x400) ∷ s

abbrev utf16 : String → Str
utf16 String.[] = []
utf16 (String.◌∷◌ c s) = units (code c) (utf16 s)

abbrev unicode : List String → List EmojiItem
unicode [] = []
unicode (s ∷ rest) = EmojiItem.unicode (utf16 s) ∷ unicode rest

abbrev pub smileys_category : Category
smileys_category = record {
  label = lit "Smileys";
  emojis = unicode (
      "😀" ∷ "😁" ∷ "😂" ∷ "🤣" ∷ "😃" ∷ "😄" ∷ "😅" ∷ "😆" ∷ "😉" ∷ "😊" ∷ "😋" ∷ "😎" ∷ "😍" ∷ "🥰" ∷ "😘" ∷ "😗"
      ∷ "😙" ∷ "😚" ∷ "🙂" ∷ "🤗" ∷ "🤩" ∷ "🤔" ∷ "🤨" ∷ "😐" ∷ "😑" ∷ "😶" ∷ "🙄" ∷ "😏" ∷ "😣" ∷ "😥" ∷ "😮"
      ∷ "🤐" ∷ "😯" ∷ "😪" ∷ "😫" ∷ "🥱" ∷ "😴" ∷ "😌" ∷ "😛" ∷ "😜" ∷ "😝" ∷ "🤤" ∷ "😒" ∷ "😓" ∷ "😔" ∷ "😕"
      ∷ "🙃" ∷ "🤑" ∷ "😲" ∷ "☹\u{fe0f}" ∷ "🙁" ∷ "😖" ∷ "😞" ∷ "😟" ∷ "😤" ∷ "😢" ∷ "😭" ∷ "😦" ∷ "😧" ∷ "😨"
      ∷ "😩" ∷ "🤯" ∷ "😬" ∷ "😰" ∷ "😱" ∷ "🥵" ∷ "🥶" ∷ "😳" ∷ "🤪" ∷ "😵" ∷ "🤠" ∷ "🥴" ∷ "😷" ∷ "🤒" ∷ "🤕"
      ∷ "🤧" ∷ "🥳" ∷ "🥸" ∷ "🤡" ∷ "👹" ∷ []);
}

abbrev pub gestures_category : Category
gestures_category = record {
  label = lit "Gestures";
  emojis = unicode (
      "👍" ∷ "👎" ∷ "👌" ∷ "✌\u{fe0f}" ∷ "🤞" ∷ "🤟" ∷ "🤘" ∷ "🤙" ∷ "👈" ∷ "👉" ∷ "👆" ∷ "🖕" ∷ "👇"
      ∷ "☝\u{fe0f}" ∷ "👋" ∷ "🤚" ∷ "🖐\u{fe0f}" ∷ "✋" ∷ "🖖" ∷ "👏" ∷ "🙌" ∷ "🤲" ∷ "🤝" ∷ "🙏"
      ∷ "✍\u{fe0f}" ∷ "💪" ∷ "🦾" ∷ "🦵" ∷ "🦶" ∷ "👂" ∷ "🦻" ∷ "👃" ∷ "👀" ∷ "👁\u{fe0f}" ∷ "👅" ∷ "👄" ∷ "💋"
      ∷ "🫀" ∷ "🫁" ∷ "🧠" ∷ []);
}

abbrev pub hearts_category : Category
hearts_category = record {
  label = lit "Hearts";
  emojis = unicode (
      "❤\u{fe0f}" ∷ "🧡" ∷ "💛" ∷ "💚" ∷ "💙" ∷ "💜" ∷ "🖤" ∷ "🤍" ∷ "🤎" ∷ "💔" ∷ "❣\u{fe0f}" ∷ "💕" ∷ "💞"
      ∷ "💓" ∷ "💗" ∷ "💖" ∷ "💘" ∷ "💝" ∷ "💟" ∷ "☮\u{fe0f}" ∷ "✝\u{fe0f}" ∷ "☪\u{fe0f}" ∷ "🔯" ∷ "♈"
      ∷ "♉" ∷ "♊" ∷ "♋" ∷ "♌" ∷ "♍" ∷ "♎" ∷ []);
}

abbrev pub people_category : Category
people_category = record {
  label = lit "People";
  emojis = unicode (
      "👶" ∷ "🧒" ∷ "👦" ∷ "👧" ∷ "🧑" ∷ "👱" ∷ "👨" ∷ "🧔" ∷ "👩" ∷ "🧓" ∷ "👴" ∷ "👵" ∷ "🙍" ∷ "🙎" ∷ "🙅" ∷ "🙆"
      ∷ "💁" ∷ "🙋" ∷ "🧏" ∷ "🙇" ∷ "🤦" ∷ "🤷" ∷ "💆" ∷ "💇" ∷ "🚶" ∷ "🧍" ∷ "🧎" ∷ "🏃" ∷ "💃" ∷ "🕺" ∷ "👫"
      ∷ "👬" ∷ "👭" ∷ "💑" ∷ "💏" ∷ "👪" ∷ "🧑\u{200d}🤝\u{200d}🧑" ∷ []);
}

abbrev pub nature_category : Category
nature_category = record {
  label = lit "Nature";
  emojis = unicode (
      "🐶" ∷ "🐱" ∷ "🐭" ∷ "🐹" ∷ "🐰" ∷ "🦊" ∷ "🐻" ∷ "🐼" ∷ "🐨" ∷ "🐯" ∷ "🦁" ∷ "🐮" ∷ "🐷" ∷ "🐸" ∷ "🐵" ∷ "🙈"
      ∷ "🙉" ∷ "🙊" ∷ "🐔" ∷ "🐧" ∷ "🐦" ∷ "🐤" ∷ "🦆" ∷ "🦅" ∷ "🦉" ∷ "🦇" ∷ "🐺" ∷ "🐗" ∷ "🐴" ∷ "🦄" ∷ "🐝"
      ∷ "🐛" ∷ "🦋" ∷ "🐌" ∷ "🐞" ∷ "🐜" ∷ "🦟" ∷ "🦗" ∷ "🕷\u{fe0f}" ∷ "🦂" ∷ "🌸" ∷ "🌼" ∷ "🌻" ∷ "🌹" ∷ "🥀"
      ∷ "🌷" ∷ "🌱" ∷ "🌿" ∷ "☘\u{fe0f}" ∷ "🍀" ∷ "🎋" ∷ "🎍" ∷ "🍃" ∷ "🍂" ∷ "🍁" ∷ "🍄" ∷ "🌾" ∷ "💐" ∷ "🌲"
      ∷ "🌳" ∷ []);
}

abbrev pub food_category : Category
food_category = record {
  label = lit "Food";
  emojis = unicode (
      "🍎" ∷ "🍊" ∷ "🍋" ∷ "🍇" ∷ "🍓" ∷ "🫐" ∷ "🍈" ∷ "🍑" ∷ "🍒" ∷ "🍍" ∷ "🥭" ∷ "🍅" ∷ "🍆" ∷ "🥑" ∷ "🥦" ∷ "🥬"
      ∷ "🥒" ∷ "🌶\u{fe0f}" ∷ "🫑" ∷ "🧄" ∷ "🧅" ∷ "🥔" ∷ "🍠" ∷ "🥐" ∷ "🥯" ∷ "🍞" ∷ "🥖" ∷ "🥨" ∷ "🧀" ∷ "🥚"
      ∷ "🍳" ∷ "🧈" ∷ "🥞" ∷ "🧇" ∷ "🥓" ∷ "🥩" ∷ "🍗" ∷ "🍖" ∷ "🦴" ∷ "🌭" ∷ "🍔" ∷ "🍟" ∷ "🍕" ∷ "🫓" ∷ "🥪"
      ∷ "🥙" ∷ "🧆" ∷ "🌮" ∷ "🌯" ∷ "🫔" ∷ "🥗" ∷ "🍜" ∷ "🍝" ∷ "🍛" ∷ "🍲" ∷ "🍣" ∷ "🍱" ∷ "🥟" ∷ "🦪" ∷ "🍤"
      ∷ "☕" ∷ "🫖" ∷ "🍵" ∷ "🧃" ∷ "🥤" ∷ "🧋" ∷ "🍺" ∷ "🍻" ∷ "🥂" ∷ "🍷" ∷ []);
}

abbrev pub activities_category : Category
activities_category = record {
  label = lit "Activities";
  emojis = unicode (
      "⚽" ∷ "🏀" ∷ "🏈" ∷ "⚾" ∷ "🥎" ∷ "🎾" ∷ "🏐" ∷ "🏉" ∷ "🥏" ∷ "🎱" ∷ "🏓" ∷ "🏸" ∷ "🏒" ∷ "🥅" ∷ "⛳" ∷ "🎿"
      ∷ "🛷" ∷ "🥌" ∷ "🎯" ∷ "🎱" ∷ "🎮" ∷ "🎲" ∷ "🎭" ∷ "🎨" ∷ "🎬" ∷ "🎤" ∷ "🎧" ∷ "🎼" ∷ "🎹" ∷ "🥁" ∷ "🎷"
      ∷ "🎺" ∷ "🎸" ∷ "🪕" ∷ "🎻" ∷ "🎵" ∷ "🎶" ∷ "🎙\u{fe0f}" ∷ "📻" ∷ "🎚\u{fe0f}" ∷ []);
}

abbrev pub travel_category : Category
travel_category = record {
  label = lit "Travel";
  emojis = unicode (
      "🚗" ∷ "🚕" ∷ "🚙" ∷ "🚌" ∷ "🚎" ∷ "🏎\u{fe0f}" ∷ "🚓" ∷ "🚑" ∷ "🚒" ∷ "🚐" ∷ "🛻" ∷ "🚚" ∷ "🚛" ∷ "🚜"
      ∷ "🏍\u{fe0f}" ∷ "🛵" ∷ "🚲" ∷ "🛴" ∷ "🛹" ∷ "🛼" ∷ "✈\u{fe0f}" ∷ "🚀" ∷ "🛸" ∷ "🚂" ∷ "🚢"
      ∷ "🛥\u{fe0f}" ∷ "🚁" ∷ "🪂" ∷ "🛶" ∷ "⛵" ∷ "🌍" ∷ "🌎" ∷ "🌏" ∷ "🗺\u{fe0f}" ∷ "🧭" ∷ "🏔\u{fe0f}"
      ∷ "🌋" ∷ "🗻" ∷ "🏕\u{fe0f}" ∷ "🏖\u{fe0f}" ∷ []);
}

abbrev pub objects_category : Category
objects_category = record {
  label = lit "Objects";
  emojis = unicode (
      "💡" ∷ "🔦" ∷ "🕯\u{fe0f}" ∷ "💰" ∷ "💵" ∷ "💳" ∷ "📱" ∷ "💻" ∷ "⌨\u{fe0f}" ∷ "🖥\u{fe0f}"
      ∷ "🖨\u{fe0f}" ∷ "🖱\u{fe0f}" ∷ "💾" ∷ "💿" ∷ "📀" ∷ "📷" ∷ "📸" ∷ "📹" ∷ "🎥" ∷ "📽\u{fe0f}" ∷ "📞"
      ∷ "☎\u{fe0f}" ∷ "📟" ∷ "📠" ∷ "📺" ∷ "📻" ∷ "🎙\u{fe0f}" ∷ "📡" ∷ "🔋" ∷ "🪫" ∷ "🔌" ∷ "💡" ∷ "🔦"
      ∷ "🕯\u{fe0f}" ∷ "🪔" ∷ "🧯" ∷ "🛢\u{fe0f}" ∷ "💸" ∷ "📦" ∷ "📫" ∷ "📮" ∷ "🗳\u{fe0f}" ∷ "✏\u{fe0f}"
      ∷ "📝" ∷ "📖" ∷ "📚" ∷ "📋" ∷ "📅" ∷ "📆" ∷ "📇" ∷ "🗂\u{fe0f}" ∷ "🗒\u{fe0f}" ∷ "📰" ∷ "📜" ∷ "📄" ∷ "📃"
      ∷ "🗑\u{fe0f}" ∷ "🔒" ∷ "🔓" ∷ "🔑" ∷ []);
}

abbrev pub symbols_category : Category
symbols_category = record {
  label = lit "Symbols";
  emojis = unicode (
      "✅" ∷ "❌" ∷ "❎" ∷ "🔴" ∷ "🟠" ∷ "🟡" ∷ "🟢" ∷ "🔵" ∷ "🟣" ∷ "⚫" ∷ "⚪" ∷ "🟤" ∷ "🔶" ∷ "🔷" ∷ "🔸" ∷ "🔹"
      ∷ "🔺" ∷ "🔻" ∷ "💠" ∷ "🔘" ∷ "🔲" ∷ "🔳" ∷ "▪\u{fe0f}" ∷ "▫\u{fe0f}" ∷ "◾" ∷ "◽" ∷ "◼\u{fe0f}"
      ∷ "◻\u{fe0f}" ∷ "🟥" ∷ "🟧" ∷ "🟨" ∷ "🟩" ∷ "🟦" ∷ "🟪" ∷ "⬛" ∷ "⬜" ∷ "🔥" ∷ "💧" ∷ "🌊" ∷ "⭐" ∷ "🌟"
      ∷ "✨" ∷ "💫" ∷ "⚡" ∷ "☁\u{fe0f}" ∷ "🌈" ∷ "❄\u{fe0f}" ∷ "☃\u{fe0f}" ∷ "⛄" ∷ "🌊" ∷ "🎉" ∷ "🎊"
      ∷ "🎈" ∷ "🎀" ∷ "🎁" ∷ "🏆" ∷ "🥇" ∷ "🥈" ∷ "🥉" ∷ "🎖\u{fe0f}" ∷ []);
}
