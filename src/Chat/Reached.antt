-- ===== src/Chat/Reached.antt =====
-- The states that the actions of the chat store reach.
use winkd.Prelude.{
  ◌≡◌, refl, Bool, true, false, ◌&&◌, Option, none, some, Str, str_eq_instance, arith, Bool-cases,
  Option-cases, inl, inr,
}
use winkd.Prelude.Dict
use winkd.Prelude.Dict.{Dict}
use winkd.Messages.{Message}
use winkd.Chat.{
  Conversation, ChatState, initial, open_conversation, close_conversation, Stamp, Attachment,
  bare_message, send_text, send_attachment, send_winkd, send_nudge, receive_message, is_inherited,
  mark_message_delivered, clear_shaking,
}
use winkd.Chat.Whole.{
  IsNewIn, AreWhole, open_conversation-AreWhole, append_message-AreWhole, receive_message-AreWhole,
  mark_found, mark_missing, mark_message_delivered-AreWhole, clear_shaking-AreWhole,
}

-- The states that the actions reach from the start, if what is sent goes to a conversation that is
-- there, with a new id, and shaking is cleared in a conversation that is there.
pub data Reached : ChatState → Type 0 where
  start : Reached initial
  opened : (contact : Str) (s : ChatState) → Reached s → Reached (open_conversation contact s)
  closed : (s : ChatState) → Reached s → Reached (close_conversation s)
  text_sent :
      (stamp : Stamp) (conversation sender body : Str) (s : ChatState)
      → IsNewIn conversation stamp.id s
      → Reached s
      → Reached (send_text stamp conversation sender body s).0
  attachment_sent :
      (stamp : Stamp) (conversation sender : Str) (a : Attachment) (s : ChatState)
      → IsNewIn conversation stamp.id s
      → Reached s
      → Reached (send_attachment stamp conversation sender a s).0
  winkd_sent :
      (stamp : Stamp) (conversation sender : Str) (s : ChatState)
      → IsNewIn conversation stamp.id s
      → Reached s
      → Reached (send_winkd stamp conversation sender s).0
  nudge_sent :
      (stamp : Stamp) (conversation sender : Str) (s : ChatState)
      → IsNewIn conversation stamp.id s
      → Reached s
      → Reached (send_nudge stamp conversation sender s).0
  received : (m : Message) (s : ChatState) → Reached s → Reached (receive_message m s)
  marked :
      (conversation id : Str) (s s' : ChatState)
      → mark_message_delivered conversation id s ≡ some s'
      → Reached s
      → Reached s'
  cleared :
      (conversation : Str) (c : Conversation) (s : ChatState)
      → Dict.get conversation s.conversations ≡ some c
      → Reached s
      → Reached (clear_shaking conversation s)

-- In every state that the actions reach from the start, each conversation has its key as id, has
-- all its members, and holds no message id twice, if what is sent went to a conversation that was
-- there, with a new id, and shaking was cleared in a conversation that was there.
pub Reached-AreWhole : (s : ChatState) → Reached s → AreWhole s.conversations
unfolding send_text send_attachment send_winkd send_nudge bare_message close_conversation Dict.get
Reached-AreWhole _ Reached.start = λ k c e. ground (arith, e)
Reached-AreWhole _ (Reached.opened contact s r) =
    open_conversation-AreWhole contact s (Reached-AreWhole s r)
Reached-AreWhole _ (Reached.closed s r) = Reached-AreWhole s r
Reached-AreWhole _ (Reached.text_sent stamp conversation sender body s new r) =
    append_message-AreWhole conversation _ s new (Reached-AreWhole s r)
Reached-AreWhole _ (Reached.attachment_sent stamp conversation sender a s new r) =
    append_message-AreWhole conversation _ s new (Reached-AreWhole s r)
Reached-AreWhole _ (Reached.winkd_sent stamp conversation sender s new r) =
    append_message-AreWhole conversation _ s new (Reached-AreWhole s r)
Reached-AreWhole _ (Reached.nudge_sent stamp conversation sender s new r) =
    append_message-AreWhole conversation _ s new (Reached-AreWhole s r)
Reached-AreWhole _ (Reached.received m s r) = receive_message-AreWhole m s (Reached-AreWhole s r)
Reached-AreWhole _ (Reached.marked conversation id s s' e r) =
    mark_message_delivered-AreWhole conversation id s s' e (Reached-AreWhole s r)
Reached-AreWhole _ (Reached.cleared conversation c s at r) =
    clear_shaking-AreWhole conversation c s at (Reached-AreWhole s r)

abbrev pub is_none {ℓ} : {A : Type ℓ} → Option A → Bool
is_none none = true
is_none (some a) = false

-- In every state that the actions reach from the start, marking a message as delivered throws exactly
-- if no conversation has the id that is given and that id is the name of a member that every object
-- inherits; whatever the message, if what was sent went to a conversation that was there, with a
-- new id, and shaking was cleared in a conversation that was there.
pub mark_message_delivered-Reached :
    (conversation id : Str) (s : ChatState)
    → Reached s
    → is_none (mark_message_delivered conversation id s)
      ≡ (is_none (Dict.get conversation s.conversations) && is_inherited conversation)
mark_message_delivered-Reached conversation id s r =
    elim (Option-cases (Dict.get conversation s.conversations)) [
      | inl missing ↦
          rw (mark_missing conversation id s missing, missing)
            (elim (Bool-cases (is_inherited conversation)) [
              | inl e ↦ rw e refl
              | inr e ↦ rw e refl
            ])
      | inr (c, at) ↦
          let (next, e, _) = mark_found conversation id c s at (Reached-AreWhole s r) in
          rw (e, at) refl
    ]
