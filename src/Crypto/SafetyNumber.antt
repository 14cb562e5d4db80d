-- ===== src/Crypto/SafetyNumber.antt =====
-- `computeSafetyNumber` of packages/core/src/encryption/crypto.ts.
pub mod Laws
use winkd.Prelude.{
  ℕ, zero, suc, ◌+◌, ◌*◌, ◌%◌, Option, none, some, List, [], ◌∷◌, ◌++◌, Str, lit, str_lt, get_elem?,
  if◌then◌else◌,
}
use winkd.Codec.Hex.{Bytes, pad_start}
use winkd.Codec.Base64.{base64_to_buf}
use winkd.Codec.Decimal.{decimal}
use winkd.Result.{Result, ok, dom_exception, or_throw, ◌>>=◌}
use winkd.Crypto.WebCrypto.{WebCrypto}

-- A party's Winkd ID and identity public key.
pub record Party : Type 0 where
  pub winkd_id : Str
  pub identity_public : Str

-- Five bytes from an offset as one number, from the most significant; `none` is the NaN of an
-- offset past the end.
unfoldable pub five_bytes : Bytes → (left offset number : ℕ) → Option ℕ
five_bytes hash zero offset number = some number
five_bytes hash (suc left) offset number = elim (get_elem? hash offset) [
  | none ↦ none
  | some b ↦ five_bytes hash left (suc offset) (number * 256 + b)
]

-- `(… % 100_000).toString()`
abbrev pub five_digits : Option ℕ → Str
five_digits none = lit "NaN"
five_digits (some n) = decimal (n % 100_000)

-- The groups from the i-th on, `left` of them.
unfoldable pub groups_from : Bytes → (left i : ℕ) → List Str
groups_from hash zero i = []
groups_from hash (suc left) i =
    pad_start 5 b'0' (five_digits (five_bytes hash 5 (i * 5) 0)) ∷ groups_from hash left (suc i)

-- `groups.join(" ")`
unfoldable pub join : List Str → Str
join [] = []
join (g ∷ []) = g
join (g ∷ h ∷ gs) = g ++ b' ' ∷ join (h ∷ gs)

module _ ⦃web : WebCrypto⦄ where
  -- From the parties in the order of their IDs.
  unfoldable pub safety_number_of : Party → Party → Result Str
  safety_number_of first second = do
    key1 ← or_throw (base64_to_buf first.identity_public) dom_exception
    key2 ← or_throw (base64_to_buf second.identity_public) dom_exception
    let input = web.utf8_encode first.winkd_id ++ key1 ++ web.utf8_encode second.winkd_id ++ key2
    ok (join (groups_from (web.sha512 input) 12 0))

  unfoldable pub compute_safety_number : Party → Party → Result Str
  compute_safety_number mine theirs =
      if str_lt mine.winkd_id theirs.winkd_id
      then safety_number_of mine theirs
      else safety_number_of theirs mine
