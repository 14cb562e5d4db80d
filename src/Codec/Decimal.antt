-- ===== src/Codec/Decimal.antt =====
-- `toString()` of a number that is a natural below 2 ^ 53, as template strings call it.
use winkd.Prelude.{
  ℕ, zero, suc, ◌+◌, ◌-◌, ◌*◌, ◌/◌, ◌%◌, ◌^◌, ◌≤◌, ◌<◌, ◌≡◌, refl, sym, ap, ◌∙◌, [], ◌∷◌, ◌++◌,
  arith, ltb, if◌then◌else◌, Str, lit, length, length-append, Bool-cases, inl, inr, All, All-append,
}
use native.Mathlib.Nat.{pow-suc}

-- One digit for each unit of fuel.
digits : ℕ → ℕ → Str
digits zero n = []
digits (suc fuel) n =
    let rest = digits fuel (n / 10) in
    if ltb n 10 then (n + 48) ∷ [] else rest ++ (n % 10 + 48) ∷ []

-- A number has fewer digits than its successor counts.
unfoldable pub decimal : ℕ → Str
unfolding digits
decimal n = digits (suc n) n

-- The number that a text of digits stands for, after `acc`.
value : ℕ → Str → ℕ
value acc [] = acc
value acc (c ∷ s) = value (acc * 10 + (c - 48)) s

value-append : (acc : ℕ) (s t : Str) → value acc (s ++ t) ≡ value (value acc s) t
unfolding value
value-append acc [] t = refl
value-append acc (c ∷ s) t = value-append (acc * 10 + (c - 48)) s t

value-digits : (fuel n : ℕ) → n < fuel → value 0 (digits fuel n) ≡ n
unfolding value digits
value-digits zero n h = absurd (omega arith)
value-digits (suc fuel) n h = elim (Bool-cases (ltb n 10)) [
  | inl e ↦ rw e (omega arith)
  | inr e ↦
      rw (e, value-append 0 (digits fuel (n / 10)) ((n % 10 + 48) ∷ []))
        (ground (arith, value-digits fuel (n / 10)))
]

-- Different numbers are written differently.
pub decimal-injective : (m n : ℕ) → decimal m ≡ decimal n → m ≡ n
unfolding decimal
decimal-injective m n h =
    sym (value-digits (suc m) m (omega arith))
    ∙ ap (value 0) h
    ∙ value-digits (suc n) n (omega arith)

length-digits : (k fuel n : ℕ) → n < 10 ^ suc k → length (digits fuel n) ≤ suc k
unfolding digits
length-digits k zero n h = omega arith
length-digits zero (suc fuel) n h = ground arith
length-digits (suc k) (suc fuel) n h = elim (Bool-cases (ltb n 10)) [
  | inl e ↦ rw e (omega arith)
  | inr e ↦ rw e (
      omega (
        arith,
        length-append (digits fuel (n / 10)) ((n % 10 + 48) ∷ []),
        length-digits k fuel (n / 10) (omega (arith, pow-suc 10 (suc k))),
      ))
]

-- A number of at most five digits.
pub length-decimal_le_five : (n : ℕ) → n < 100_000 → length (decimal n) ≤ 5
unfolding decimal
length-decimal_le_five n h = length-digits 4 (suc n) n h

abbrev pub IsDigit : ℕ → Type 0
IsDigit c = (48 ≤ c) × (c ≤ 57)

digits-IsDigits : (fuel n : ℕ) → All IsDigit (digits fuel n)
unfolding digits
digits-IsDigits zero n = tt
digits-IsDigits (suc fuel) n = elim (Bool-cases (ltb n 10)) [
  | inl e ↦ rw e ((omega arith, ground arith), tt)
  | inr e ↦ rw e (
      All-append IsDigit (digits fuel (n / 10)) ((n % 10 + 48) ∷ []) (digits-IsDigits fuel (n / 10))
        ((omega arith, omega arith), tt))
]

pub decimal-IsDigits : (n : ℕ) → All IsDigit (decimal n)
unfolding decimal
decimal-IsDigits n = digits-IsDigits (suc n) n

decimal_test : decimal 90210 ≡ lit "90210"
unfolding decimal
decimal_test = refl
