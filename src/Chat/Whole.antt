-- ===== src/Chat/Whole.antt =====
-- What the actions of the chat store keep.
use winkd.Prelude.{
  ◌≤◌, ◌≡◌, refl, sym, ap, ◌∙◌, subst, Bool, true, false, none, some, List, [], ◌∷◌, ◌++◌, Str,
  str_eq, str_eq_iff, str_eq_instance, arith, Option-cases, inl, inr, Bool-cases, if◌then◌else◌,
}
use winkd.Prelude.Dict
use winkd.Prelude.Dict.{Dict, get-put, get-put_same}
use winkd.Prelude.Keyed.{change, count, has, count-append, count-change, count-has}
use winkd.Messages.{Message, message_id, next_messages}
use winkd.Chat.{
  Conversation, ChatState, find_with, fresh_conversation, open_conversation, append_message,
  receive_message, is_inherited, mark_message_delivered, clear_shaking, received_in,
  conversation_or_empty, messages_or_empty,
}
use winkd.Chat.Laws.{count-next_messages}

-- The conversation kept under a key: its id is the key, it has its members, and no message id
-- occurs twice in it.
pub record IsWhole (k : Str) (c : Conversation) : Type 0 where
  pub id : c.id ≡ some k
  pub contact : (contact : Str) × (c.contact_id ≡ some contact)
  pub messages :
      (ms : List Message) × (c.messages ≡ some ms) × ((j : Str) → count message_id j ms ≤ 1)
  pub shaking : (shaking : Bool) × (c.is_shaking ≡ some shaking)

abbrev pub AreWhole : Dict Str Conversation → Type 0
AreWhole d = (k : Str) (c : Conversation) → Dict.get k d ≡ some c → IsWhole k c

put-AreWhole :
    (k : Str) (c : Conversation) (d : Dict Str Conversation)
    → AreWhole d
    → IsWhole k c
    → AreWhole (Dict.put k c d)
put-AreWhole k c d h new j c' e = elim (Bool-cases (str_eq k j)) [
  | inl same ↦
      subst (λ i. IsWhole i c') ((str_eq_iff k j).0 same)
        (subst (IsWhole k) (ground (arith, get-put k j c d)) new)
  | inr other ↦ h j c' (ground (arith, get-put k j c d))
]

-- The conversation is there, and none of its messages has the id.
abbrev pub IsNewIn : Str → Str → ChatState → Type 0
IsNewIn conversation id s =
    (c : Conversation) × (Dict.get conversation s.conversations ≡ some c)
    × (has message_id id (messages_or_empty c.messages) ≡ false)

pub open_conversation-AreWhole :
    (contact : Str) (s : ChatState)
    → AreWhole s.conversations
    → AreWhole (open_conversation contact s).conversations
unfolding open_conversation count
open_conversation-AreWhole contact s h = elim (Option-cases (find_with contact s.conversations)) [
  | inl new ↦
      rw (new, open_conversation)
        (put-AreWhole contact (fresh_conversation contact) s.conversations h (record {
          id = refl;
          contact = (contact, refl);
          messages = ([], refl, λ j. omega arith);
          shaking = (false, refl);
        }))
  | inr (c, old) ↦ rw (old, open_conversation) h
]

append_once :
    (j : Str) (m : Message) (ms : List Message)
    → has message_id m.id ms ≡ false
    → ((i : Str) → count message_id i ms ≤ 1)
    → count message_id j (ms ++ m ∷ []) ≤ 1
unfolding count
append_once j m ms new once =
    rw (count-append message_id j ms (m ∷ []))
      (ground (arith, count-has message_id m.id ms new, once j, str_eq_iff m.id j))

pub append_message-AreWhole :
    (conversation : Str) (msg : Message) (s : ChatState)
    → IsNewIn conversation msg.id s
    → AreWhole s.conversations
    → AreWhole (append_message conversation msg s).conversations
unfolding append_message count
append_message-AreWhole conversation msg s (c, at, new) h =
    let w = h conversation c at in
    let (ms, e, once) = w.messages in
    let fresh : has message_id msg.id ms ≡ false =
      ap (λ o. has message_id msg.id (messages_or_empty o)) (sym e) ∙ new in
    rw at (
      put-AreWhole conversation _ s.conversations h (record {
        id = w.id;
        contact = w.contact;
        messages = (ms ++ msg ∷ [], rw e refl, λ j. append_once j msg ms fresh once);
        shaking = w.shaking;
      }))

old_messages_once :
    (k j : Str) (d : Dict Str Conversation)
    → AreWhole d
    → count message_id j (messages_or_empty (conversation_or_empty (Dict.get k d)).messages) ≤ 1
unfolding count
old_messages_once k j d h = elim (Option-cases (Dict.get k d)) [
  | inl e ↦ rw e (omega arith)
  | inr (c, e) ↦ let (ms, f, once) = (h k c e).messages in rw (e, f) (once j)
]

next_messages_once :
    (m : Message) (ms : List Message)
    → ((i : Str) → count message_id i ms ≤ 1)
    → (j : Str) → count message_id j (next_messages m ms) ≤ 1
next_messages_once m ms once j = elim (Bool-cases (has message_id m.id ms)) [
  | inl old ↦ ground (arith, count-next_messages j m ms, once j)
  | inr new ↦ ground (arith, count-next_messages j m ms, append_once j m ms new once)
]

pub receive_message-AreWhole :
    (m : Message) (s : ChatState)
    → AreWhole s.conversations
    → AreWhole (receive_message m s).conversations
unfolding receive_message received_in
receive_message-AreWhole m s h = put-AreWhole m.conversation_id _ s.conversations h (record {
  id = refl;
  contact = (_, refl);
  messages = (
    _,
    refl,
    next_messages_once m _ (λ i. old_messages_once m.conversation_id i s.conversations h),
  );
  shaking = (_, refl);
})

-- In a conversation that is there.
pub mark_found :
    (conversation id : Str) (c : Conversation) (s : ChatState)
    → Dict.get conversation s.conversations ≡ some c
    → AreWhole s.conversations
    → (s' : ChatState) × (mark_message_delivered conversation id s ≡ some s')
      × AreWhole s'.conversations
unfolding mark_message_delivered
mark_found conversation id c s e h =
    let w = h conversation c e in
    let (ms, f, once) = w.messages in
    let next : Conversation = record c {
      messages = some (change message_id id (λ m. record m { delivered = true }) ms);
    } in
    (
      record s { conversations = Dict.put conversation next s.conversations },
      rw (e, f, mark_message_delivered) refl,
      put-AreWhole conversation next s.conversations h (record {
        id = w.id;
        contact = w.contact;
        messages = (
          _,
          refl,
          λ j. omega (
            arith,
            count-change message_id id j (λ m. record m { delivered = true }) ms (λ m e. e),
            once j,
          ),
        );
        shaking = w.shaking;
      }),
    )

pub mark_missing :
    (conversation id : Str) (s : ChatState)
    → Dict.get conversation s.conversations ≡ none
    → mark_message_delivered conversation id s
      ≡ (if is_inherited conversation then none else some s)
unfolding mark_message_delivered
mark_missing conversation id s e = rw (e, mark_message_delivered) refl

pub mark_message_delivered-AreWhole :
    (conversation id : Str) (s s' : ChatState)
    → mark_message_delivered conversation id s ≡ some s'
    → AreWhole s.conversations
    → AreWhole s'.conversations
mark_message_delivered-AreWhole conversation id s s' e h =
    elim (Option-cases (Dict.get conversation s.conversations)) [
      | inl missing ↦
          let same : s ≡ s' = ground (arith, mark_missing conversation id s missing, e) in
          subst (λ (t : ChatState). AreWhole t.conversations) same h
      | inr (c, at) ↦
          let (next, f, whole) = mark_found conversation id c s at h in
          let same : next ≡ s' = cc (f, e) in
          subst (λ (t : ChatState). AreWhole t.conversations) same whole
    ]

pub clear_shaking-AreWhole :
    (conversation : Str) (c : Conversation) (s : ChatState)
    → Dict.get conversation s.conversations ≡ some c
    → AreWhole s.conversations
    → AreWhole (clear_shaking conversation s).conversations
unfolding clear_shaking
clear_shaking-AreWhole conversation c s at h =
    let w = h conversation c at in
    rw at (
      put-AreWhole conversation _ s.conversations h
        (record { id = w.id; contact = w.contact; messages = w.messages; shaking = (false, refl) }))

-- After shaking is cleared in a conversation that is not there, marking any message of it as
-- delivered throws.
pub mark_message_delivered-clear_shaking :
    (conversation id : Str) (s : ChatState)
    → Dict.get conversation s.conversations ≡ none
    → mark_message_delivered conversation id (clear_shaking conversation s) ≡ none
unfolding clear_shaking mark_message_delivered
mark_message_delivered-clear_shaking conversation id s missing =
    rw (missing, get-put_same conversation _ s.conversations, mark_message_delivered) refl
