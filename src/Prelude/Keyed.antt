-- ===== src/Prelude/Keyed.antt =====
-- Lists whose elements have a text as key, as the stores of the web client keep them.
use winkd.Prelude.Tests.{Str, str_eq, str_eq_iff, if◌then◌else◌}
use Prim.Native.Nat.{ℕ, suc, ◌+◌}
use mathlib.Core.Path.{◌≡◌, refl}
use mathlib.Core.Bool.{Bool, true, false, ◌||◌}
use mathlib.Core.Option.{Option, none, some}
use mathlib.Core.List.{List, [], ◌∷◌, ◌++◌}
use native.Mathlib.Omega.{arith}

module _ {A : Type 0} (key : A → Str) where
  -- `xs.filter((x) => x.key !== k)`
  unfoldable pub without : Str → List A → List A
  without k [] = []
  without k (x ∷ xs) = let rest = without k xs in if str_eq (key x) k then rest else x ∷ rest

  -- `xs.some((x) => x.key === k)`
  unfoldable pub has : Str → List A → Bool
  has k [] = false
  has k (x ∷ xs) = str_eq (key x) k || has k xs

  -- `xs.map((x) => (x.key === k ? f(x) : x))`
  unfoldable pub change : Str → (A → A) → List A → List A
  change k f [] = []
  change k f (x ∷ xs) = (if str_eq (key x) k then f x else x) ∷ change k f xs

  -- How many elements have the key.
  unfoldable pub count : Str → List A → ℕ
  count k [] = 0
  count k (x ∷ xs) = if str_eq (key x) k then suc (count k xs) else count k xs

  -- The first element with the key.
  unfoldable pub first : Str → List A → Option A
  first k [] = none
  first k (x ∷ xs) = if str_eq (key x) k then some x else first k xs

  pub count-append : (k : Str) (xs ys : List A) → count k (xs ++ ys) ≡ count k xs + count k ys
  unfolding count
  count-append k [] ys = omega arith
  count-append k (x ∷ xs) ys = ground (arith, count-append k xs ys)

  pub count-without :
      (k j : Str) (xs : List A) → count j (without k xs) ≡ (if str_eq k j then 0 else count j xs)
  unfolding count without
  count-without k j [] = ground arith
  count-without k j (x ∷ xs) =
      ground
        (arith, count-without k j xs, str_eq_iff (key x) k, str_eq_iff (key x) j, str_eq_iff k j)

  pub count-has : (k : Str) (xs : List A) → has k xs ≡ false → count k xs ≡ 0
  unfolding count has
  count-has k [] h = refl
  count-has k (x ∷ xs) h = ground (arith, count-has k xs)

  pub first-has : (k : Str) (xs : List A) → has k xs ≡ false → first k xs ≡ none
  unfolding first has
  first-has k [] h = refl
  first-has k (x ∷ xs) h = ground (arith, first-has k xs)

  pub first-without :
      (k j : Str) (xs : List A) → first j (without k xs) ≡ (if str_eq k j then none else first j xs)
  unfolding first without
  first-without k j [] = ground arith
  first-without k j (x ∷ xs) =
      ground
        (arith, first-without k j xs, str_eq_iff (key x) k, str_eq_iff (key x) j, str_eq_iff k j)

  pub first-append :
      (k : Str) (xs ys : List A)
      → first k (xs ++ ys) ≡ (if has k xs then first k xs else first k ys)
  unfolding first has
  first-append k [] ys = refl
  first-append k (x ∷ xs) ys = ground (arith, first-append k xs ys)

  pub has-without :
      (k j : Str) (xs : List A) → has j (without k xs) ≡ (if str_eq k j then false else has j xs)
  unfolding has without
  has-without k j [] = ground arith
  has-without k j (x ∷ xs) =
      ground (arith, has-without k j xs, str_eq_iff (key x) k, str_eq_iff (key x) j, str_eq_iff k j)

  pub has-append : (k : Str) (xs ys : List A) → has k (xs ++ ys) ≡ (has k xs || has k ys)
  unfolding has
  has-append k [] ys = refl
  has-append k (x ∷ xs) ys = ground (arith, has-append k xs ys)

  -- All elements with the key replaced by one that has it.
  pub first-change :
      (k : Str) (y : A) (xs : List A)
      → key y ≡ k
      → has k xs ≡ true
      → first k (change k (λ _. y) xs) ≡ some y
  unfolding first change has
  first-change k y [] e h = cc
  first-change k y (x ∷ xs) e h =
      ground (arith, first-change k y xs e, str_eq_iff (key x) k, str_eq_iff (key y) k)

  -- A change that keeps the key keeps the counts.
  pub count-change :
      (k j : Str) (f : A → A) (xs : List A)
      → ((x : A) → key x ≡ k → key (f x) ≡ k)
      → count j (change k f xs) ≡ count j xs
  unfolding count change
  count-change k j f [] h = refl
  count-change k j f (x ∷ xs) h = ground (arith, count-change k j f xs h, h x, str_eq_iff (key x) k)
