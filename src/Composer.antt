-- ===== src/Composer.antt =====
-- What ChatWindow.tsx (apps/web/src/components) does with the text and the files that a person sends.
pub mod Attachments
use winkd.Prelude.{
  ℕ, Bool, true, false, not, ◌&&◌, ◌||◌, Option, none, some, List, [], ◌∷◌, ◌++◌, Str, lit, str_eq,
  ltb, ◌==◌, if◌then◌else◌,
}
use winkd.Text.{trim, Unicode}
use winkd.Messages.{Message}
use winkd.Chat.{ChatState, Stamp, Attachment, send_text, send_attachment}

abbrev blocked_attachment_extensions : List Str
blocked_attachment_extensions =
    lit "exe"
    ∷ lit "msi"
    ∷ lit "bat"
    ∷ lit "cmd"
    ∷ lit "com"
    ∷ lit "scr"
    ∷ lit "pif"
    ∷ lit "jar"
    ∷ lit "vbs"
    ∷ lit "vbe"
    ∷ lit "js"
    ∷ lit "jse"
    ∷ lit "wsf"
    ∷ lit "wsh"
    ∷ lit "ps1"
    ∷ lit "psm1"
    ∷ lit "hta"
    ∷ lit "reg"
    ∷ lit "scf"
    ∷ lit "lnk"
    ∷ lit "dll"
    ∷ lit "sys"
    ∷ lit "iso"
    ∷ lit "img"
    ∷ lit "apk"
    ∷ lit "app"
    ∷ lit "dmg"
    ∷ lit "pkg"
    ∷ lit "deb"
    ∷ lit "rpm"
    ∷ lit "sh"
    ∷ []

abbrev pub max_attachment_bytes : ℕ
max_attachment_bytes = 3145728

-- What follows the last dot, if there is one.
unfoldable pub last_part : Str → Option Str
last_part [] = none
last_part (c ∷ s) = elim (last_part s) [ some p ↦ some p | none ↦ if c == 46 then some s else none ]

abbrev contains : Str → List Str → Bool
contains s [] = false
contains s (t ∷ ts) = str_eq t s || contains s ts

-- A picked file; `data` is what FileReader reads, or `none` where that fails.
pub record File : Type 0 where
  pub name : Str
  pub size : ℕ
  pub mime : Str
  pub data_url : Option Str

-- `conversation` and `winkd_id` are what the handlers see of the conversation that is open and of the
-- session.
pub record Composer : Type 0 where
  pub conversation : Str
  pub winkd_id : Str
  pub input_value : Str
  pub attachment_error : Option Str
  pub chat : ChatState

abbrev pub failed : Str → Composer → Composer × Option Message
failed error c = (record c { attachment_error = some error }, none)

abbrev or_default : Str → Str → Str
or_default [] d = d
or_default (c ∷ s) d = c ∷ s

-- A text that is empty is a paper clip (a surrogate pair), a space and the name.
abbrev pub attachment_of : File → Str → Str → Attachment
attachment_of f data_url input = record {
  media_data = data_url;
  media_name = f.name;
  media_mime = or_default f.mime (lit "application/octet-stream");
  media_size = f.size;
  body = some (or_default (trim input) (0xD83D ∷ 0xDCCE ∷ 0x20 ∷ f.name));
}

abbrev sent : Composer → ChatState × Message → Composer × Option Message
sent c (chat, m) = (record c { input_value = []; chat = chat }, some m)

-- `handleSend`: the message that is sent, if any.
unfoldable pub handle_send : Stamp → Composer → Composer × Option Message
handle_send stamp c = elim (trim c.input_value) [
  | [] ↦ (c, none)
  | d ∷ body ↦ sent c (send_text stamp c.conversation c.winkd_id (d ∷ body) c.chat)
]

-- `handleKeyDown`: a key, and whether shift is held.
unfoldable pub handle_key_down :
    (key : Str) → (shift : Bool) → Stamp → Composer → Composer × Option Message
handle_key_down key shift stamp c =
    if str_eq key (lit "Enter") && not shift then handle_send stamp c else (c, none)

-- `handleFilePick` and `handlePhotoPick`, before the browser's dialog
unfoldable pub handle_pick : Composer → Composer
handle_pick c = record c { attachment_error = none }

-- An emoji is selected.
unfoldable pub select_emoji : Str → Composer → Composer
select_emoji emoji c = record c { input_value = c.input_value ++ emoji }

-- The file was read, and is sent, or could not be read.
unfoldable pub send_read : Stamp → File → Option Str → Composer → Composer × Option Message
send_read stamp f none c = failed (lit "Could not read that file. Try again.") c
send_read stamp f (some d) c =
    sent (record c { attachment_error = none })
      (send_attachment stamp c.conversation c.winkd_id (attachment_of f d c.input_value) c.chat)

module _ ⦃tables : Unicode⦄ where
  unfoldable pub file_extension : Str → Str
  file_extension name = elim (last_part name) [ none ↦ [] | some p ↦ tables.to_lower_case p ]

  unfoldable pub is_blocked : File → Bool
  is_blocked f = contains (file_extension f.name) blocked_attachment_extensions

  -- `handleAttachmentSelect`
  unfoldable pub handle_attachment_select :
      Stamp → Option File → Composer → Composer × Option Message
  handle_attachment_select stamp none c = (c, none)
  handle_attachment_select stamp (some f) c =
      if is_blocked f
      then failed
          (lit "This file type is blocked for safety. Executables and scripts are not allowed.") c
      else if ltb max_attachment_bytes f.size
      then failed (lit "File is too large. Current attachment limit is 3 MB.") c
      else send_read stamp f f.data_url c
