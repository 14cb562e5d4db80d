-- ===== src/Codec/Hex.antt =====
-- `bufToHex` and `hexToBuf` of packages/core/src/encryption/crypto.ts.
pub mod Laws
use winkd.Prelude.{
  ℕ, ◌+◌, ◌-◌, ◌*◌, ◌/◌, ◌%◌, ◌<◌, Bool, true, false, ◌&&◌, ◌||◌, Option, none, some, List, [], ◌∷◌,
  ◌++◌, ltb, leb, ◌==◌, if◌then◌else◌, Str, lit, All, length, replicate,
}

-- The contents of a `Uint8Array`.
abbrev pub Bytes : Type 0
Bytes = List ℕ

abbrev pub IsBytes : Bytes → Type 0
IsBytes bs = All (λ b. b < 256) bs

-- `s.padStart(n, c)` for one character c.
unfoldable pub pad_start : ℕ → ℕ → Str → Str
pad_start n c s = replicate (n - length s) c ++ s

hex_digit : ℕ → ℕ
hex_digit d = if ltb d 10 then d + 48 else d + 87

-- `b.toString(16)` of a byte.
to_string16 : ℕ → Str
unfolding hex_digit
to_string16 b = if ltb b 16 then hex_digit b ∷ [] else hex_digit (b / 16) ∷ hex_digit (b % 16) ∷ []

unfoldable pub buf_to_hex : Bytes → Str
unfolding to_string16 pad_start
buf_to_hex [] = []
buf_to_hex (b ∷ bs) = pad_start 2 b'0' (to_string16 b) ++ buf_to_hex bs

-- The value of a hexadecimal digit, in either case.
hex_value : ℕ → Option ℕ
hex_value c =
    if leb 48 c && leb c 57
    then some (c - 48)
    else if leb 97 c && leb c 102
    then some (c - 87)
    else if leb 65 c && leb c 70
    then some (c - 55)
    else none

-- The white space that `parseInt` skips: WhiteSpace and LineTerminator of ECMA-262.
is_space : ℕ → Bool
is_space c =
    leb 9 c && leb c 13
    || c == 32
    || c == 160
    || c == 0x1680
    || leb 0x2000 c && leb c 0x200a
    || c == 0x2028
    || c == 0x2029
    || c == 0x202f
    || c == 0x205f
    || c == 0x3000
    || c == 0xfeff

skip_spaces : Str → Str
unfolding is_space
skip_spaces [] = []
skip_spaces (c ∷ s) = let rest = skip_spaces s in if is_space c then rest else c ∷ s

-- The digits at the front; `none` (NaN) where there is none. `acc` is what was read before.
digits16 : Option ℕ → Str → Option ℕ
unfolding hex_value
digits16 acc [] = acc
digits16 acc (c ∷ s) = elim (hex_value c) [
  | none ↦ acc
  | some d ↦ digits16 (some (elim acc [ none ↦ d | some n ↦ n * 16 + d ])) s
]

-- With radix 16 a prefix `0x` is dropped.
drop_prefix : Str → Str
drop_prefix (z ∷ x ∷ s) = if z == b'0' && (x == b'x' || x == b'X') then s else z ∷ x ∷ s
drop_prefix s = s

-- The byte that a `Uint8Array` holds after it is assigned `parseInt(s, 16)`: NaN becomes 0, and a
-- number is reduced modulo 256.
abbrev byte_of : Bool → Option ℕ → ℕ
byte_of negative none = 0
byte_of false (some n) = n % 256
byte_of true (some n) = (256 - n % 256) % 256

signed_byte : Str → ℕ
unfolding drop_prefix digits16
signed_byte [] = 0
signed_byte (c ∷ s) =
    if c == b'-'
    then byte_of true (digits16 none (drop_prefix s))
    else if c == b'+'
    then byte_of false (digits16 none (drop_prefix s))
    else byte_of false (digits16 none (drop_prefix (c ∷ s)))

unfoldable pub parse_byte : Str → ℕ
unfolding skip_spaces signed_byte
parse_byte s = signed_byte (skip_spaces s)

-- A write past the end of the array is dropped, so an odd last digit is ignored.
unfoldable pub hex_to_buf : Str → Bytes
unfolding parse_byte
hex_to_buf [] = []
hex_to_buf (c ∷ []) = []
hex_to_buf (c ∷ d ∷ s) = parse_byte (c ∷ d ∷ []) ∷ hex_to_buf s
