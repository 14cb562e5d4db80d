-- ===== src/Text/Laws.antt =====
-- Trimming, lower case and the ends of texts.
use winkd.Prelude.{
  ℕ, ◌≡◌, refl, ap, ap₂, Bool, true, false, [], ◌∷◌, ◌++◌, map, Str, str_eq_refl, All, drop, length,
  arith, if◌then◌else◌,
}
use winkd.Text.{drop_end, ends_with, drop_last}

-- What passes at the end goes, up to the last that does not.
pub drop_end-append :
    (test : ℕ → Bool) (xs : Str) (c d : ℕ)
    → test c ≡ false
    → test d ≡ true
    → drop_end test (xs ++ c ∷ d ∷ []) ≡ xs ++ c ∷ []
unfolding drop_end
drop_end-append test [] c d stays goes = rw (goes, drop_end) (rw (stays, drop_end) refl)
drop_end-append test (x ∷ []) c d stays goes = rw (goes, drop_end) (rw (stays, drop_end) refl)
drop_end-append test (x ∷ y ∷ xs) c d stays goes =
    rw (drop_end-append test (y ∷ xs) c d stays goes, drop_end) refl

pub ends_with-append : (xs suffix : Str) → ends_with suffix (xs ++ suffix) ≡ true
unfolding ends_with
ends_with-append [] [] = ground (arith, str_eq_refl [])
ends_with-append [] (c ∷ s) = rw (str_eq_refl (c ∷ s)) refl
ends_with-append (x ∷ xs) suffix = ground (arith, ends_with-append xs suffix)

pub drop_last-append : (xs : Str) (c : ℕ) → drop_last (xs ++ c ∷ []) ≡ xs
unfolding drop_last
drop_last-append [] c = refl
drop_last-append (x ∷ []) c = refl
drop_last-append (x ∷ y ∷ xs) c = ap (λ s. x ∷ s) (drop_last-append (y ∷ xs) c)

pub map-fixed : (f : ℕ → ℕ) (s : Str) → All (λ c. f c ≡ c) s → map f s ≡ s
map-fixed f [] h = refl
map-fixed f (c ∷ s) h = ap₂ ◌∷◌ h.0 (map-fixed f s h.1)

-- What stays, and what goes at the end, are the text.
pub drop_end-rest :
    (test : ℕ → Bool) (s : Str) → drop_end test s ++ drop (length (drop_end test s)) s ≡ s
unfolding drop_end
drop_end-rest test [] = refl
drop_end-rest test (c ∷ s) = by_rest (drop_end test s) (drop_end-rest test s) (test c)
  where
    by_rest :
        (r : Str)
        → r ++ drop (length r) s ≡ s
        → (b : Bool)
        → (let kept : Str = elim r [ [] ↦ (if b then [] else c ∷ []) | d ∷ q ↦ c ∷ d ∷ q ] in
            kept ++ drop (length kept) (c ∷ s) ≡ c ∷ s)
    by_rest [] e true = refl
    by_rest [] e false = refl
    by_rest (d ∷ q) e b = ap (λ t. c ∷ t) e

pub drop_end-kept : (test : ℕ → Bool) (s : Str) → All (λ c. test c ≡ false) s → drop_end test s ≡ s
unfolding drop_end
drop_end-kept test [] h = refl
drop_end-kept test (c ∷ []) h = rw h.0 refl
drop_end-kept test (c ∷ d ∷ s) h = rw (drop_end-kept test (d ∷ s) h.1, drop_end) refl
