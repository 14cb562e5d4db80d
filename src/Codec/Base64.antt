-- ===== src/Codec/Base64.antt =====
-- `btoa` and `atob`, and `bufToBase64` and `base64ToBuf` of
-- packages/core/src/encryption/crypto.ts.
pub mod Laws
use winkd.Prelude.{
  ℕ, ◌+◌, ◌-◌, ◌*◌, ◌/◌, ◌%◌, Bool, true, false, ◌&&◌, ◌||◌, Option, none, some, List, [], ◌∷◌,
  ◌++◌, map, ltb, leb, ◌==◌, if◌then◌else◌, Str, length,
}
use winkd.Codec.Hex.{Bytes}

-- The character of six bits.
b64_char : ℕ → ℕ
b64_char d =
    if ltb d 26
    then d + 65
    else if ltb d 52
    then d + 71
    else if ltb d 62
    then d - 4
    else if d == 62
    then b'+'
    else b'/'

b64_value : ℕ → Option ℕ
b64_value c =
    if leb 65 c && leb c 90
    then some (c - 65)
    else if leb 97 c && leb c 122
    then some (c - 71)
    else if leb 48 c && leb c 57
    then some (c + 4)
    else if c == b'+'
    then some 62
    else if c == b'/'
    then some 63
    else none

to_sextets : Bytes → List ℕ
to_sextets [] = []
to_sextets (a ∷ []) = a / 4 ∷ a % 4 * 16 ∷ []
to_sextets (a ∷ b ∷ []) = a / 4 ∷ (a % 4 * 16 + b / 16) ∷ b % 16 * 4 ∷ []
to_sextets (a ∷ b ∷ c ∷ r) =
    a / 4 ∷ (a % 4 * 16 + b / 16) ∷ (b % 16 * 4 + c / 64) ∷ c % 64 ∷ to_sextets r

from_sextets : List ℕ → Bytes
from_sextets [] = []
from_sextets (w ∷ []) = []
from_sextets (w ∷ x ∷ []) = (w * 4 + x / 16) ∷ []
from_sextets (w ∷ x ∷ y ∷ []) = (w * 4 + x / 16) ∷ (x % 16 * 16 + y / 4) ∷ []
from_sextets (w ∷ x ∷ y ∷ z ∷ r) =
    (w * 4 + x / 16) ∷ (x % 16 * 16 + y / 4) ∷ (y % 4 * 64 + z) ∷ from_sextets r

padding : Bytes → Str
padding [] = []
padding (a ∷ []) = b'=' ∷ b'=' ∷ []
padding (a ∷ b ∷ []) = b'=' ∷ []
padding (a ∷ b ∷ c ∷ r) = padding r

encode : Bytes → Str
unfolding b64_char to_sextets padding
encode bs = map b64_char (to_sextets bs) ++ padding bs

all_latin1 : Str → Bool
all_latin1 [] = true
all_latin1 (c ∷ s) = ltb c 256 && all_latin1 s

-- `btoa` throws on a code unit above 255.
unfoldable pub btoa : Str → Option Str
unfolding all_latin1 encode
btoa s = if all_latin1 s then some (encode s) else none

is_ascii_space : ℕ → Bool
is_ascii_space c = c == 9 || c == 10 || c == 12 || c == 13 || c == 32

strip_spaces : Str → Str
unfolding is_ascii_space
strip_spaces [] = []
strip_spaces (c ∷ s) = let rest = strip_spaces s in if is_ascii_space c then rest else c ∷ rest

-- At most two `=` at the end.
strip_padding : Str → Str
strip_padding [] = []
strip_padding (a ∷ []) = if a == b'=' then [] else a ∷ []
strip_padding (a ∷ b ∷ []) = if b == b'=' then (if a == b'=' then [] else a ∷ []) else a ∷ b ∷ []
strip_padding (a ∷ b ∷ c ∷ s) = a ∷ strip_padding (b ∷ c ∷ s)

sextets : Str → Option (List ℕ)
unfolding b64_value
sextets [] = some []
sextets (c ∷ s) = elim (b64_value c) [
  | none ↦ none
  | some d ↦ elim (sextets s) [ none ↦ none | some r ↦ some (d ∷ r) ]
]

decode : Str → Option Bytes
unfolding sextets from_sextets
decode s =
    if length s % 4 == 1
    then none
    else elim (sextets s) [ none ↦ none | some r ↦ some (from_sextets r) ]

-- `atob`, the forgiving decoder of the Infra standard.
unfoldable pub atob : Str → Option Str
unfolding strip_spaces strip_padding decode
atob s = let t = strip_spaces s in decode (if length t % 4 == 0 then strip_padding t else t)

-- A byte array is the binary string with the same code units, all of them below 256.
unfoldable pub buf_to_base64 : Bytes → Str
unfolding encode
buf_to_base64 buf = encode buf

-- `none` where `atob` throws.
unfoldable pub base64_to_buf : Str → Option Bytes
unfolding atob
base64_to_buf b64 = atob b64
