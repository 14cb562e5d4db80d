-- ===== src/Codec/Base64/Laws.antt =====
-- The round trip of `bufToBase64` and `base64ToBuf`.
use winkd.Prelude.{
  ℕ, not, ◌%◌, ◌<◌, ◌≡◌, ◌≢◌, refl, Bool, true, false, ◌&&◌, some, List, [], ◌∷◌, ◌++◌, map, arith,
  ◌==◌, ==_iff, Bool-cases, All, All-append, length, Str, inl, inr, ap, ltb, holds_from,
  passes_below, none,
}
use winkd.Codec.Hex.{Bytes, IsBytes}
use winkd.Codec.Base64.{
  b64_char, b64_value, to_sextets, from_sextets, padding, encode, all_latin1, btoa, is_ascii_space,
  strip_spaces, strip_padding, sextets, decode, atob, buf_to_base64, base64_to_buf,
}

from_to_sextets : (bs : Bytes) → IsBytes bs → from_sextets (to_sextets bs) ≡ bs
unfolding from_sextets to_sextets
from_to_sextets [] h = refl
from_to_sextets (a ∷ []) h = ground arith
from_to_sextets (a ∷ b ∷ []) h = ground arith
from_to_sextets (a ∷ b ∷ c ∷ r) h = ground (arith, from_to_sextets r h.1.1.1)

abbrev IsSextets : List ℕ → Type 0
IsSextets xs = All (λ d. d < 64) xs

to_sextets-IsSextets : (bs : Bytes) → IsBytes bs → IsSextets (to_sextets bs)
unfolding to_sextets
to_sextets-IsSextets [] h = tt
to_sextets-IsSextets (a ∷ []) h = omega arith
to_sextets-IsSextets (a ∷ b ∷ []) h = omega arith
to_sextets-IsSextets (a ∷ b ∷ c ∷ r) h =
    (omega arith, (omega arith, (omega arith, (omega arith, to_sextets-IsSextets r h.1.1.1))))

-- A character of the alphabet is read back, and is no space and no padding.
reads_back : ℕ → Bool
unfolding b64_char b64_value
reads_back d = elim (b64_value (b64_char d)) [ none ↦ false | some e ↦ e == d ]

reads_back_table : holds_from 0 64 reads_back ≡ true
unfolding holds_from reads_back
reads_back_table = refl

b64_value-char : (d : ℕ) → d < 64 → b64_value (b64_char d) ≡ some d
unfolding reads_back
b64_value-char d h = read (passes_below 64 _ d reads_back_table h)
  where
    read : reads_back d ≡ true → b64_value (b64_char d) ≡ some d
    read e = ground arith

is_plain : ℕ → Bool
unfolding b64_char is_ascii_space
is_plain d = not (is_ascii_space (b64_char d)) && not (b64_char d == b'=')

is_plain_table : holds_from 0 64 is_plain ≡ true
unfolding holds_from is_plain
is_plain_table = refl

not_plain : (p q : Bool) → (not p && not q) ≡ true → (p ≡ false) × (q ≡ false)
not_plain p q h = ground arith

char_plain :
    (d : ℕ) → d < 64 → (is_ascii_space (b64_char d) ≡ false) × ((b64_char d == b'=') ≡ false)
unfolding is_plain
char_plain d h =
    not_plain (is_ascii_space (b64_char d)) (b64_char d == b'=')
      (passes_below 64 _ d is_plain_table h)

abbrev chars : List ℕ → Str
chars xs = map b64_char xs

sextets-chars : (xs : List ℕ) → IsSextets xs → sextets (chars xs) ≡ some xs
unfolding sextets
sextets-chars [] h = refl
sextets-chars (d ∷ xs) h = rw (sextets, b64_value-char d h.0, sextets-chars xs h.1)

strip_spaces-chars :
    (xs : List ℕ) (t : Str)
    → IsSextets xs
    → strip_spaces t ≡ t
    → strip_spaces (chars xs ++ t) ≡ chars xs ++ t
unfolding strip_spaces
strip_spaces-chars [] t h e = e
strip_spaces-chars (d ∷ xs) t h e = rw ((char_plain d h.0).0, strip_spaces-chars xs t h.1 e)

strip_spaces-padding : (bs : Bytes) → strip_spaces (padding bs) ≡ padding bs
unfolding strip_spaces padding is_ascii_space
strip_spaces-padding [] = refl
strip_spaces-padding (a ∷ []) = refl
strip_spaces-padding (a ∷ b ∷ []) = refl
strip_spaces-padding (a ∷ b ∷ c ∷ r) = strip_spaces-padding r

strip_none : (xs : List ℕ) → IsSextets xs → strip_padding (chars xs ++ []) ≡ chars xs
unfolding strip_padding
strip_none [] h = refl
strip_none (a ∷ []) h = rw ((char_plain a h.0).1)
strip_none (a ∷ b ∷ []) h = rw ((char_plain b h.1.0).1)
strip_none (a ∷ b ∷ c ∷ xs) h = ap (λ s. b64_char a ∷ s) (strip_none (b ∷ c ∷ xs) h.1)

strip_one : (xs : List ℕ) → IsSextets xs → strip_padding (chars xs ++ b'=' ∷ []) ≡ chars xs
unfolding strip_padding
strip_one [] h = refl
strip_one (a ∷ []) h = rw ((char_plain a h.0).1)
strip_one (a ∷ b ∷ []) h = ap (λ s. b64_char a ∷ s) (strip_one (b ∷ []) h.1)
strip_one (a ∷ b ∷ c ∷ xs) h = ap (λ s. b64_char a ∷ s) (strip_one (b ∷ c ∷ xs) h.1)

strip_two : (xs : List ℕ) → IsSextets xs → strip_padding (chars xs ++ b'=' ∷ b'=' ∷ []) ≡ chars xs
unfolding strip_padding
strip_two [] h = refl
strip_two (a ∷ []) h = refl
strip_two (a ∷ b ∷ []) h = ap (λ s. b64_char a ∷ s) (strip_two (b ∷ []) h.1)
strip_two (a ∷ b ∷ c ∷ xs) h = ap (λ s. b64_char a ∷ s) (strip_two (b ∷ c ∷ xs) h.1)

strip_padding-encode :
    (bs : Bytes) (xs : List ℕ) → IsSextets xs → strip_padding (chars xs ++ padding bs) ≡ chars xs
unfolding padding
strip_padding-encode [] xs h = strip_none xs h
strip_padding-encode (a ∷ []) xs h = strip_two xs h
strip_padding-encode (a ∷ b ∷ []) xs h = strip_one xs h
strip_padding-encode (a ∷ b ∷ c ∷ r) xs h = strip_padding-encode r xs h

length-encode : (bs : Bytes) → length (chars (to_sextets bs) ++ padding bs) % 4 ≡ 0
unfolding to_sextets padding
length-encode [] = refl
length-encode (a ∷ []) = refl
length-encode (a ∷ b ∷ []) = refl
length-encode (a ∷ b ∷ c ∷ r) = omega (arith, length-encode r)

length-chars : (bs : Bytes) → length (chars (to_sextets bs)) % 4 ≢ 1
unfolding to_sextets
length-chars [] = omega arith
length-chars (a ∷ []) = omega arith
length-chars (a ∷ b ∷ []) = omega arith
length-chars (a ∷ b ∷ c ∷ r) = omega (arith, length-chars r)

decode-chars : (bs : Bytes) → IsBytes bs → decode (chars (to_sextets bs)) ≡ some bs
unfolding decode
decode-chars bs h = elim (Bool-cases (length (chars (to_sextets bs)) % 4 == 1)) [
  | inl e ↦ absurd (length-chars bs ((==_iff _ 1).0 e))
  | inr e ↦
      rw (e, sextets-chars (to_sextets bs) (to_sextets-IsSextets bs h))
        (ap some (from_to_sextets bs h))
]

atob-encode : (bs : Bytes) → IsBytes bs → atob (encode bs) ≡ some bs
unfolding atob encode
atob-encode bs h =
    let k = to_sextets-IsSextets bs h in
    rw
      (
        strip_spaces-chars (to_sextets bs) (padding bs) k (strip_spaces-padding bs),
        length-encode bs,
        strip_padding-encode bs (to_sextets bs) k,
      )
      (decode-chars bs h)

-- For every byte array, `base64ToBuf(bufToBase64(buf))` is `buf`.
pub base64_to_buf-buf_to_base64 :
    (bs : Bytes) → IsBytes bs → base64_to_buf (buf_to_base64 bs) ≡ some bs
unfolding base64_to_buf buf_to_base64
base64_to_buf-buf_to_base64 bs h = atob-encode bs h

all_latin1-IsBytes : (s : Str) → IsBytes s → all_latin1 s ≡ true
unfolding all_latin1
all_latin1-IsBytes [] h = refl
all_latin1-IsBytes (c ∷ s) h = ground (arith, all_latin1-IsBytes s h.1)

-- `btoa` accepts a text of Latin-1 characters, and `atob` gives it back.
pub btoa-atob : (s : Str) → IsBytes s → (e : Str) × (btoa s ≡ some e) × (atob e ≡ some s)
unfolding btoa
btoa-atob s h = (encode s, rw (all_latin1-IsBytes s h), atob-encode s h)

is_small_table : holds_from 0 64 (λ d. ltb (b64_char d) 256) ≡ true
unfolding holds_from b64_char
is_small_table = refl

chars-IsBytes : (xs : List ℕ) → IsSextets xs → IsBytes (chars xs)
chars-IsBytes [] h = tt
chars-IsBytes (d ∷ xs) h =
    let small : ltb (b64_char d) 256 ≡ true = passes_below 64 _ d is_small_table h.0 in
    (ground arith, chars-IsBytes xs h.1)

padding-IsBytes : (bs : Bytes) → IsBytes (padding bs)
unfolding padding
padding-IsBytes [] = tt
padding-IsBytes (a ∷ []) = omega arith
padding-IsBytes (a ∷ b ∷ []) = omega arith
padding-IsBytes (a ∷ b ∷ c ∷ r) = padding-IsBytes r

-- The text is ASCII, so a binary string.
pub buf_to_base64-IsBytes : (bs : Bytes) → IsBytes bs → IsBytes (buf_to_base64 bs)
unfolding buf_to_base64 encode
buf_to_base64-IsBytes bs h =
    All-append _ (chars (to_sextets bs)) (padding bs)
      (chars-IsBytes (to_sextets bs) (to_sextets-IsSextets bs h)) (padding-IsBytes bs)

-- Only the empty array has an empty text.
pub length-buf_to_base64_pos : (bs : Bytes) → 0 < length bs → 0 < length (buf_to_base64 bs)
unfolding buf_to_base64 encode to_sextets padding
length-buf_to_base64_pos [] h = absurd (omega arith)
length-buf_to_base64_pos (a ∷ []) h = omega arith
length-buf_to_base64_pos (a ∷ b ∷ []) h = omega arith
length-buf_to_base64_pos (a ∷ b ∷ c ∷ r) h = omega arith
