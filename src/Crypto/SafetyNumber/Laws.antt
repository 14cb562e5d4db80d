-- ===== src/Crypto/SafetyNumber/Laws.antt =====
-- Both parties see the same safety number, and its format.
use winkd.Prelude.{
  ℕ, zero, suc, ◌+◌, ◌-◌, ◌*◌, ◌%◌, ◌≤◌, ◌<◌, ◌≡◌, ◌≢◌, refl, ap, ap₂, not, some, List, [], ◌∷◌,
  ◌++◌, Str, str_lt, ◌==◌, ==_iff, length, length-append, length-replicate, All, All-append,
  get_elem?, replicate, arith, Bool-cases, inl, inr,
}
use winkd.Codec.Hex.{Bytes, pad_start}
use winkd.Codec.Base64.{base64_to_buf}
use winkd.Codec.Decimal.{decimal, IsDigit, decimal-IsDigits, length-decimal_le_five}
use winkd.Result.{ok}
use winkd.Crypto.WebCrypto.{WebCrypto}
use winkd.Crypto.Assumptions.{IsWebCrypto}
use winkd.Crypto.SafetyNumber.{
  Party, five_bytes, groups_from, join, safety_number_of, compute_safety_number,
}

str_lt-swap : (s t : Str) → s ≢ t → str_lt s t ≡ not (str_lt t s)
unfolding str_lt
str_lt-swap [] [] h = absurd (h refl)
str_lt-swap [] (y ∷ t) h = refl
str_lt-swap (x ∷ s) [] h = refl
str_lt-swap (x ∷ s) (y ∷ t) h = elim (Bool-cases (x == y)) [
  | inl e ↦
      let same : x ≡ y = (==_iff x y).0 e in
      ground (arith, e, str_lt-swap s t (λ r. h (ap₂ (λ a b. a ∷ b) same r)))
  | inr e ↦ ground (arith, e)
]

get_elem-in_range : (xs : Bytes) (i : ℕ) → i < length xs → (b : ℕ) × (get_elem? xs i ≡ some b)
get_elem-in_range [] i h = absurd (omega arith)
get_elem-in_range (x ∷ xs) zero h = (x, refl)
get_elem-in_range (x ∷ xs) (suc i) h = get_elem-in_range xs i (omega arith)

five_bytes-in_range :
    (hash : Bytes) (left offset number : ℕ)
    → offset + left ≤ length hash
    → (n : ℕ) × (five_bytes hash left offset number ≡ some n)
unfolding five_bytes
five_bytes-in_range hash zero offset number h = (number, refl)
five_bytes-in_range hash (suc left) offset number h =
    let (b, e) = get_elem-in_range hash offset (omega arith) in
    rw (e, five_bytes) (five_bytes-in_range hash left (suc offset) (number * 256 + b) (omega arith))

-- A group of the safety number.
pub IsGroup : Str → Type 0
IsGroup g = (length g ≡ 5) × All IsDigit g

All-replicate_zero : (n : ℕ) → All IsDigit (replicate n 48)
All-replicate_zero zero = tt
All-replicate_zero (suc n) = ((omega arith, omega arith), All-replicate_zero n)

pad_start-IsGroup : (n : ℕ) → IsGroup (pad_start 5 b'0' (decimal (n % 100_000)))
unfolding pad_start IsGroup
pad_start-IsGroup n =
    let digits = decimal (n % 100_000) in
    let few = length-decimal_le_five (n % 100_000) (omega arith) in
    let zeros = replicate (5 - length digits) 48 in
    (
      omega
          (arith, length-append zeros digits, length-replicate {A = ℕ} (5 - length digits) 48, few),
      All-append IsDigit zeros digits (All-replicate_zero (5 - length digits))
          (decimal-IsDigits (n % 100_000)),
    )

groups_from-IsGroup :
    (hash : Bytes) (left i : ℕ)
    → (i + left) * 5 ≤ length hash
    → (length (groups_from hash left i) ≡ left) × All IsGroup (groups_from hash left i)
unfolding groups_from
groups_from-IsGroup hash zero i h = (refl, tt)
groups_from-IsGroup hash (suc left) i h =
    let (n, e) = five_bytes-in_range hash 5 (i * 5) 0 (omega arith) in
    let (count, rest) = groups_from-IsGroup hash left (suc i) (omega arith) in
    (ap suc count, (rw e (pad_start-IsGroup n), rest))

module _ ⦃web : WebCrypto⦄ where
  -- For two different Winkd IDs, each party computes what the other computes.
  pub compute_safety_number_comm :
      (a b : Party)
      → a.winkd_id ≢ b.winkd_id
      → compute_safety_number a b ≡ compute_safety_number b a
  unfolding compute_safety_number
  compute_safety_number_comm a b h = elim (Bool-cases (str_lt b.winkd_id a.winkd_id)) [
    | inl e ↦ rw (str_lt-swap a.winkd_id b.winkd_id h, e) refl
    | inr e ↦ rw (str_lt-swap a.winkd_id b.winkd_id h, e) refl
  ]

  safety_number_of-groups :
      (laws : IsWebCrypto web) (first second : Party) (key1 key2 : Bytes)
      → base64_to_buf first.identity_public ≡ some key1
      → base64_to_buf second.identity_public ≡ some key2
      → (groups : List Str) × (safety_number_of first second ≡ ok (join groups))
        × (length groups ≡ 12)
        × All IsGroup groups
  unfolding safety_number_of
  safety_number_of-groups laws first second key1 key2 e1 e2 =
      let input =
        web.utf8_encode first.winkd_id ++ key1 ++ web.utf8_encode second.winkd_id ++ key2 in
      let (count, groups) =
        groups_from-IsGroup (web.sha512 input) 12 0 (omega (arith, laws.sha512_length input)) in
      (groups_from (web.sha512 input) 12 0, rw (e1, e2) refl, count, groups)

  -- If the two keys are base64, the safety number is twelve groups with a space between any two, of
  -- five decimal digits each.
  -- Assumes `IsWebCrypto`.
  compute_safety_number-groups :
      (laws : IsWebCrypto web) (mine theirs : Party) (key1 key2 : Bytes)
      → base64_to_buf mine.identity_public ≡ some key1
      → base64_to_buf theirs.identity_public ≡ some key2
      → (groups : List Str) × (compute_safety_number mine theirs ≡ ok (join groups))
        × (length groups ≡ 12)
        × All IsGroup groups
  unfolding compute_safety_number
  compute_safety_number-groups laws mine theirs key1 key2 e1 e2 =
      elim (Bool-cases (str_lt mine.winkd_id theirs.winkd_id)) [
        | inl e ↦ rw e (safety_number_of-groups laws mine theirs key1 key2 e1 e2)
        | inr e ↦ rw e (safety_number_of-groups laws theirs mine key2 key1 e2 e1)
      ]
