-- ===== src/Codec/Hex/Laws.antt =====
-- The round trip of `bufToHex` and `hexToBuf`.
use winkd.Prelude.{
  ℕ, ◌*◌, ◌<◌, ◌≡◌, refl, true, inl, inr, [], ◌∷◌, ◌++◌, arith, ltb, ◌==◌, ==_iff, Bool-cases,
  length, Str, ap₂, ◌∙◌, holds_from, passes_below, length-append,
}
use winkd.Codec.Hex.{Bytes, IsBytes, pad_start, to_string16, buf_to_hex, parse_byte, hex_to_buf}

abbrev hex_pair : ℕ → Str
hex_pair b = pad_start 2 b'0' (to_string16 b)

parse_byte_table : holds_from 0 256 (λ b. parse_byte (hex_pair b) == b) ≡ true
unfolding holds_from parse_byte pad_start to_string16
parse_byte_table = refl

parse_byte-hex_pair : (b : ℕ) → b < 256 → parse_byte (hex_pair b) ≡ b
parse_byte-hex_pair b h = (==_iff _ b).0 (passes_below 256 _ b parse_byte_table h)

length-hex_pair : (b : ℕ) → length (hex_pair b) ≡ 2
unfolding pad_start to_string16
length-hex_pair b = elim (Bool-cases (ltb b 16)) [ inl e ↦ rw e | inr e ↦ rw e ]

hex_to_buf-pair :
    (p rest : Str) → length p ≡ 2 → hex_to_buf (p ++ rest) ≡ parse_byte p ∷ hex_to_buf rest
unfolding hex_to_buf
hex_to_buf-pair [] rest h = absurd (omega arith)
hex_to_buf-pair (c ∷ []) rest h = absurd (omega arith)
hex_to_buf-pair (c ∷ d ∷ []) rest h = refl
hex_to_buf-pair (c ∷ d ∷ e ∷ p) rest h = absurd (omega arith)

-- For every byte array, `hexToBuf(bufToHex(buf))` is `buf`.
pub hex_to_buf-buf_to_hex : (bs : Bytes) → IsBytes bs → hex_to_buf (buf_to_hex bs) ≡ bs
unfolding buf_to_hex
hex_to_buf-buf_to_hex [] h = unfold hex_to_buf in refl
hex_to_buf-buf_to_hex (b ∷ bs) h =
    hex_to_buf-pair (hex_pair b) (buf_to_hex bs) (length-hex_pair b)
    ∙ ap₂ ◌∷◌ (parse_byte-hex_pair b h.0) (hex_to_buf-buf_to_hex bs h.1)

-- Two digits for each byte.
pub length-buf_to_hex : (bs : Bytes) → length (buf_to_hex bs) ≡ length bs * 2
unfolding buf_to_hex
length-buf_to_hex [] = refl
length-buf_to_hex (b ∷ bs) =
    omega
      (arith, length-append (hex_pair b) (buf_to_hex bs), length-hex_pair b, length-buf_to_hex bs)
