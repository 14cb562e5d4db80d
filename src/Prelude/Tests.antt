-- ===== src/Prelude/Tests.antt =====
-- Boolean tests: on numbers, and on texts as lists of UTF-16 code units.
use Prim.Native.Nat.{◌+◌, ℕ, zero, suc, compare, Ordering, ◌<◌}
use Prim.Native.Char.{code}
use Prim.Native.String.{String}
use mathlib.Core.Path.{subst, ◌≡◌, refl}
use mathlib.Core.Logic.{◌⊎◌, inl, inr, ◌↔◌}
use mathlib.Core.Bool.{Bool, true, false, ◌&&◌}
use mathlib.Core.Option.{Option, none, some}
use mathlib.Core.List.{List, [], ◌∷◌}
use native.Mathlib.Omega.{arith}

abbrev pub ltb : ℕ → ℕ → Bool
ltb a b = elim (compare a b) [ Ordering.lt ↦ true | _ ↦ false ]

abbrev pub leb : ℕ → ℕ → Bool
leb a b = elim (compare a b) [ Ordering.gt ↦ false | _ ↦ true ]

infix 50 ◌==◌
abbrev pub ◌==◌ : ℕ → ℕ → Bool
a == b = elim (compare a b) [ Ordering.eq ↦ true | _ ↦ false ]

infix 1 if◌then◌else◌
abbrev pub if◌then◌else◌ {ℓ} : {A : Type ℓ} → Bool → A → A → A
if true then x else y = x
if false then x else y = y

pub ==_iff : (a b : ℕ) → ((a == b) ≡ true) ↔ (a ≡ b)
==_iff a b = (λ h. ground arith, λ h. ground arith)

pub Bool-cases : (b : Bool) → (b ≡ true) ⊎ (b ≡ false)
Bool-cases true = inl refl
Bool-cases false = inr refl

pub Option-cases {ℓ} : {A : Type ℓ} (o : Option A) → (o ≡ none) ⊎ ((a : A) × (o ≡ some a))
Option-cases none = inl refl
Option-cases (some a) = inr (a, refl)

-- A JavaScript string: its UTF-16 code units.
abbrev pub Str : Type 0
Str = List ℕ

-- A literal of ASCII characters.
abbrev pub lit : String → Str
lit String.[] = []
lit (String.◌∷◌ c s) = code c ∷ lit s

-- `===` on strings.
unfoldable pub str_eq : Str → Str → Bool
str_eq [] [] = true
str_eq [] (y ∷ t) = false
str_eq (x ∷ s) [] = false
str_eq (x ∷ s) (y ∷ t) = (x == y) && str_eq s t

pub str_eq_refl : (s : Str) → str_eq s s ≡ true
unfolding str_eq
str_eq_refl [] = refl
str_eq_refl (x ∷ s) = ground (arith, str_eq_refl s)

str_eq→eq : (s t : Str) → str_eq s t ≡ true → s ≡ t
unfolding str_eq
str_eq→eq [] [] h = refl
str_eq→eq [] (y ∷ t) h = cc
str_eq→eq (x ∷ s) [] h = cc
str_eq→eq (x ∷ s) (y ∷ t) h = ground (arith, str_eq→eq s t)

pub str_eq_iff : (s t : Str) → (str_eq s t ≡ true) ↔ (s ≡ t)
str_eq_iff s t = (str_eq→eq s t, λ h. ground (arith, h, str_eq_refl s))

-- An equality test, for the keys of dictionaries.
pub record Eq (A : Type 0) : Type 0 where
  pub beq : A → A → Bool
  pub beq_iff : (a b : A) → (beq a b ≡ true) ↔ (a ≡ b)

instance abbrev pub nat_eq : Eq ℕ
nat_eq = record { beq = ◌==◌; beq_iff = ==_iff }

instance abbrev pub str_eq_instance : Eq Str
str_eq_instance = record { beq = str_eq; beq_iff = str_eq_iff }

-- A test of each number from `i` on, `left` of them: it runs by evaluation.
unfoldable pub holds_from : ℕ → (left : ℕ) → (test : ℕ → Bool) → Bool
holds_from i zero test = true
holds_from i (suc left) test = test i && holds_from (suc i) left test

holds_from_lem :
    (test : ℕ → Bool) (left i d : ℕ)
    → holds_from i left test ≡ true
    → d < left
    → test (i + d) ≡ true
unfolding holds_from
holds_from_lem test zero i d passed near = absurd (omega arith)
holds_from_lem test (suc left) i zero passed near =
    let here : test i ≡ true = ground (arith, passed) in
    subst (λ k. test k ≡ true) (omega arith) here
holds_from_lem test (suc left) i (suc d) passed near =
    let later : holds_from (suc i) left test ≡ true = ground (arith, passed) in
    subst (λ k. test k ≡ true) (omega arith)
      (holds_from_lem test left (suc i) d later (omega arith))

-- Each number below a small bound passes.
pub passes_below :
    (bound : ℕ) (test : ℕ → Bool) (n : ℕ)
    → holds_from 0 bound test ≡ true
    → n < bound
    → test n ≡ true
passes_below bound test n passed near =
    let found = holds_from_lem test bound 0 n passed near in
    subst (λ k. test k ≡ true) (omega arith) found

-- `<` on strings: lexicographic, by code units.
unfoldable pub str_lt : Str → Str → Bool
str_lt s [] = false
str_lt [] (y ∷ t) = true
str_lt (x ∷ s) (y ∷ t) = if x == y then str_lt s t else ltb x y
