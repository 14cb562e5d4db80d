-- ===== src/Text/Split/Laws.antt =====
-- The pieces of a text are all of it.
use winkd.Prelude.{ℕ, zero, suc, ◌≡◌, refl, ap, ◌∙◌, List, [], ◌∷◌, ◌++◌, Str}
use winkd.Text.Split.{cons_head, in_match, outside, pieces, split_by}

abbrev pub concat_texts : List Str → Str
concat_texts [] = []
concat_texts (p ∷ ps) = p ++ concat_texts ps

concat_texts-cons_head :
    (c : ℕ) (ps : List Str) → concat_texts (cons_head c ps) ≡ c ∷ concat_texts ps
concat_texts-cons_head c [] = refl
concat_texts-cons_head c (p ∷ ps) = refl

concat_texts-in_match :
    (n c : ℕ) (ps : List Str) → concat_texts (in_match n c ps) ≡ c ∷ concat_texts ps
concat_texts-in_match zero c ps = refl
concat_texts-in_match (suc n) c ps = concat_texts-cons_head c ps

pub concat_texts-pieces :
    (matched : Str → ℕ) (left : ℕ) (s : Str) → concat_texts (pieces matched left s) ≡ s
unfolding pieces
concat_texts-pieces matched zero [] = refl
concat_texts-pieces matched (suc n) [] = refl
concat_texts-pieces matched (suc n) (c ∷ s) =
    concat_texts-in_match n c (pieces matched n s)
    ∙ ap (λ t. c ∷ t) (concat_texts-pieces matched n s)
concat_texts-pieces matched zero (c ∷ s) =
    by_match (matched (c ∷ s)) (concat_texts-pieces matched zero s)
      (λ n. concat_texts-pieces matched n s)
  where
    by_match :
        (n : ℕ)
        → concat_texts (pieces matched zero s) ≡ s
        → ((m : ℕ) → concat_texts (pieces matched m s) ≡ s)
        → concat_texts (
            outside n c
              (pieces matched zero s)
              (pieces matched (elim n [ zero ↦ 0 | suc m ↦ m ]) s))
          ≡ c ∷ s
    by_match zero plain inside =
        concat_texts-cons_head c (pieces matched zero s) ∙ ap (λ t. c ∷ t) plain
    by_match (suc m) plain inside =
        concat_texts-in_match m c (pieces matched m s) ∙ ap (λ t. c ∷ t) (inside m)

pub concat-split_by : (matched : Str → ℕ) (text : Str) → concat_texts (split_by matched text) ≡ text
unfolding split_by
concat-split_by matched text = concat_texts-pieces matched 0 text
