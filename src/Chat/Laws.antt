-- ===== src/Chat/Laws.antt =====
-- The message list of a conversation in the chat store, and a message that arrives twice.
use winkd.Prelude.{
  ℕ, ◌≡◌, refl, ap, ◌∙◌, Bool, true, false, Option, none, some, List, [], ◌∷◌, ◌++◌, Str, str_eq,
  str_eq_iff, str_eq_instance, if◌then◌else◌, arith, inl, inr, Bool-cases, str_eq_refl,
}
use winkd.Prelude.Dict
use winkd.Prelude.Dict.{Dict, get-put_same, put-put}
use winkd.Prelude.Keyed.{count, has}
use winkd.Messages.{
  Member, absent, undefined, own, over, Message, message_id, merge, find_index, merge_at,
  next_messages, next_index, merge_or_append,
}
use winkd.Chat.{
  Conversation, ChatState, received_in, receive_message, conversation_or_empty, messages_or_empty,
}

over-over : {A : Type 0} (old new : Member A) → over (over old new) new ≡ over old new
over-over old absent = refl
over-over old undefined = refl
over-over old (own a) = refl

over_self : {A : Type 0} (a : Member A) → over a a ≡ a
over_self absent = refl
over_self undefined = refl
over_self (own a) = refl

merge-merge : (m n : Message) → merge (merge m n) n ≡ merge m n
unfolding merge
merge-merge m n =
    rw
      (
        over-over m.body n.body,
        over-over m.media_data n.media_data,
        over-over m.media_url n.media_url,
        over-over m.media_name n.media_name,
        over-over m.media_mime n.media_mime,
        over-over m.media_size n.media_size,
        over-over m.pack_id n.pack_id,
        over-over m.animation_id n.animation_id,
      )
      refl

merge_self : (m : Message) → merge m m ≡ m
unfolding merge
merge_self m =
    rw
      (
        over_self m.body,
        over_self m.media_data,
        over_self m.media_url,
        over_self m.media_name,
        over_self m.media_mime,
        over_self m.media_size,
        over_self m.pack_id,
        over_self m.animation_id,
      )
      refl

merge_or_append-cons :
    (same : Bool) (i : Option ℕ) (n m : Message) (ms : List Message)
    → merge_or_append (if same then some 0 else next_index i) n (m ∷ ms)
      ≡ (if same then merge m n ∷ ms else m ∷ merge_or_append i n ms)
unfolding merge_at
merge_or_append-cons true i n m ms = refl
merge_or_append-cons false none n m ms = refl
merge_or_append-cons false (some i) n m ms = refl

next_messages-cons :
    (n m : Message) (ms : List Message)
    → next_messages n (m ∷ ms)
      ≡ (if str_eq m.id n.id then merge m n ∷ ms else m ∷ next_messages n ms)
unfolding next_messages find_index
next_messages-cons n m ms = merge_or_append-cons (str_eq m.id n.id) (find_index n.id ms) n m ms

merge-id : (m n : Message) → (merge m n).id ≡ n.id
unfolding merge
merge-id m n = refl

next_messages-nil : (n : Message) → next_messages n [] ≡ n ∷ []
unfolding next_messages find_index
next_messages-nil n = refl

-- A second arrival finds the first and merges into it what is already there.
next_messages-next_messages :
    (n : Message) (ms : List Message) → next_messages n (next_messages n ms) ≡ next_messages n ms
unfolding merge
next_messages-next_messages n [] =
    rw (next_messages-nil n, next_messages-cons n n [], str_eq_refl n.id, merge_self n) refl
next_messages-next_messages n (m ∷ ms) = elim (Bool-cases (str_eq m.id n.id)) [
  | inl same ↦
      rw
        (
          next_messages-cons n m ms,
          same,
          next_messages-cons n (merge m n) ms,
          merge-id m n,
          str_eq_refl n.id,
          merge-merge m n,
        )
        refl
  | inr other ↦
      rw
        (
          next_messages-cons n m ms,
          other,
          next_messages-cons n m (next_messages n ms),
          other,
          next_messages-next_messages n ms,
        )
        refl
]

pub count-next_messages :
    (j : Str) (n : Message) (ms : List Message)
    → count message_id j (next_messages n ms) ≡ (
        if has message_id n.id ms then count message_id j ms else count message_id j (ms ++ n ∷ []))
unfolding count has merge
count-next_messages j n [] = rw (next_messages-nil n) refl
count-next_messages j n (m ∷ ms) =
    rw (next_messages-cons n m ms)
      (ground (arith, count-next_messages j n ms, str_eq_iff m.id n.id))

received_in-received_in :
    (m : Message) (c : Conversation) → received_in m (received_in m c) ≡ received_in m c
unfolding received_in
received_in-received_in m c =
    ap (λ ms. record (received_in m c) { messages = some ms })
      (next_messages-next_messages m (messages_or_empty c.messages))

-- Receiving a message twice in a row leaves the state that receiving it once does.
pub receive_message_twice :
    (m : Message) (s : ChatState) → receive_message m (receive_message m s) ≡ receive_message m s
unfolding receive_message
receive_message_twice m s =
    let c = conversation_or_empty (Dict.get m.conversation_id s.conversations) in
    let once = received_in m c in
    let same = get-put_same m.conversation_id once s.conversations in
    ap (λ d. record s { conversations = d })
      (ap
          (λ o.
            Dict.put m.conversation_id (received_in m (conversation_or_empty o))
              (Dict.put m.conversation_id once s.conversations))
          same
        ∙ ap (λ c'. Dict.put m.conversation_id c' (Dict.put m.conversation_id once s.conversations))
            (received_in-received_in m c)
        ∙ put-put m.conversation_id once once s.conversations)
