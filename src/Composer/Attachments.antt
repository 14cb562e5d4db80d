-- ===== src/Composer/Attachments.antt =====
-- Which files are sent.
use winkd.Prelude.{
  ◌≤◌, ◌≡◌, ◌≢◌, refl, false, Option, none, some, [], Str, ltb, arith, Bool-cases, inl, inr,
}
use winkd.Text.{Unicode}
use winkd.Messages.{Message, own}
use winkd.Chat.{Stamp, send_attachment}
use winkd.Composer.{
  File, Composer, max_attachment_bytes, is_blocked, send_read, handle_attachment_select,
}

module _ ⦃tables : Unicode⦄ where
  -- A message is sent for a picked file that is not blocked, not too large and can be read, with the
  -- file's name, size and content, and the input and the error are cleared. Where none is sent, the
  -- conversations and the input stay, and there is an error if a file was picked.
  abbrev pub IsAllowed : Option File → Composer → Composer × Option Message → Type 0
  IsAllowed picked before (after, none) =
      (after.chat ≡ before.chat)
      × (after.input_value ≡ before.input_value)
      × (elim picked [ none ↦ after ≡ before | some f ↦ after.attachment_error ≢ none ])
  IsAllowed picked before (after, some m) =
      (f : File) × (d : Str) × (picked ≡ some f)
      × (f.data_url ≡ some d)
      × (is_blocked f ≡ false)
      × (f.size ≤ max_attachment_bytes)
      × (m.media_name ≡ own f.name)
      × (m.media_size ≡ own f.size)
      × (m.media_data ≡ own d)
      × (after.input_value ≡ [])
      × (after.attachment_error ≡ none)

  send_read-IsAllowed :
      (stamp : Stamp) (f : File) (data_url : Option Str) (c : Composer)
      → f.data_url ≡ data_url
      → is_blocked f ≡ false
      → f.size ≤ max_attachment_bytes
      → IsAllowed (some f) c (send_read stamp f data_url c)
  unfolding send_read send_attachment
  send_read-IsAllowed stamp f none c e unblocked fits = (refl, refl, λ h. cc)
  send_read-IsAllowed stamp f (some d) c e unblocked fits =
      (f, d, refl, e, unblocked, fits, refl, refl, refl, refl, refl)

  -- Whatever is picked, and whatever the state is: what `handleAttachmentSelect` does is allowed.
  pub handle_attachment_select-IsAllowed :
      (stamp : Stamp) (picked : Option File) (c : Composer)
      → IsAllowed picked c (handle_attachment_select stamp picked c)
  unfolding handle_attachment_select
  handle_attachment_select-IsAllowed stamp none c = (refl, refl, refl)
  handle_attachment_select-IsAllowed stamp (some f) c = elim (Bool-cases (is_blocked f)) [
    | inl e ↦ rw e (refl, refl, λ h. cc)
    | inr e ↦ elim (Bool-cases (ltb max_attachment_bytes f.size)) [
      | inl large ↦ rw (e, large) (refl, refl, λ h. cc)
      | inr fits ↦
          rw (e, fits) (send_read-IsAllowed stamp f f.data_url c refl e (ground (arith, fits)))
    ]
  ]
