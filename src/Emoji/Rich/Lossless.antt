-- ===== src/Emoji/Rich/Lossless.antt =====
-- The pieces of a text are all of it.
use mathlib.Core.List.{append-nil}
use winkd.Prelude.{
  ◌≡◌, refl, Option, none, some, List, [], ◌∷◌, ◌++◌, Str, All, Bool-cases, inl, inr, drop, length,
}
use winkd.Text.{trim, drop_end, Unicode}
use winkd.Text.Split.{split_by}
use winkd.Text.Split.Laws.{concat_texts, concat-split_by}
use winkd.Text.Laws.{drop_end-rest}
use winkd.Emoji.Rich.{
  match_length, split_tokens, is_inline_emoji_asset, without_punctuation, split_inline_emoji_token,
  is_punctuation,
}

-- The asset and the text after it are the whole text, if there is an asset.
abbrev AreWhole : Str → Option Str × Str → Type 0
AreWhole s (none, trailing) = trailing ≡ []
AreWhole s (some asset, trailing) = asset ++ trailing ≡ s

module _ ⦃tables : Unicode⦄ where
  without_punctuation-AreWhole :
      (s r : Str) → r ++ drop (length r) s ≡ s → AreWhole s (without_punctuation s r)
  without_punctuation-AreWhole s [] e = refl
  without_punctuation-AreWhole s (c ∷ r) e = elim (Bool-cases (is_inline_emoji_asset (c ∷ r))) [
    | inl f ↦ rw f e
    | inr f ↦ rw f refl
  ]

  token-AreWhole : (token : Str) → AreWhole (trim token) (split_inline_emoji_token token)
  unfolding split_inline_emoji_token
  token-AreWhole token = elim (Bool-cases (is_inline_emoji_asset (trim token))) [
    | inl f ↦ rw f (append-nil (trim token))
    | inr f ↦ rw f (
        without_punctuation-AreWhole (trim token) (drop_end is_punctuation (trim token))
          (drop_end-rest is_punctuation (trim token)))
  ]

  All-tokens : (ts : List Str) → All (λ t. AreWhole (trim t) (split_inline_emoji_token t)) ts
  All-tokens [] = tt
  All-tokens (t ∷ ts) = (token-AreWhole t, All-tokens ts)

  -- The pieces that a text is split into are the text again, and where a piece becomes an image, what
  -- the image stands for and the text after it are the piece without the spaces around it.
  split_tokens-AreWhole :
      (text : Str)
      → (concat_texts (split_tokens text) ≡ text)
        × All (λ t. AreWhole (trim t) (split_inline_emoji_token t)) (split_tokens text)
  unfolding split_tokens
  split_tokens-AreWhole text =
      (concat-split_by match_length text, All-tokens (split_by match_length text))
