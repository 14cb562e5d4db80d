-- ===== src/Json.antt =====
-- Values that `JSON.parse` returns. A number is taken to be a natural.
use winkd.Prelude.{
  ℕ, zero, suc, Bool, true, false, Option, none, some, List, [], ◌∷◌, ◌++◌, Str, lit, str_eq,
  if◌then◌else◌,
}
use winkd.Codec.Decimal.{decimal}

mutual
  pub data Json : Type 0 where
    null : Json
    bool : Bool → Json
    number : ℕ → Json
    text : Str → Json
    array : Jsons → Json
    object : Members → Json

  pub data Jsons : Type 0 where
    end : Jsons
    item : Json → Jsons → Jsons

  pub data Members : Type 0 where
    empty : Members
    member : Str → Json → Members → Members

-- `object[name]`; `none` is undefined.
unfoldable pub get : Str → Members → Option Json
get name empty = none
get name (member k v rest) = if str_eq k name then some v else get name rest

-- The members of a value that is not null: only an object has those that are asked for.
abbrev pub members_of : Json → Members
members_of (object ms) = ms
members_of _ = empty

-- `a ?? b`
abbrev pub coalesce : Option Json → Option Json → Option Json
coalesce none b = b
coalesce (some null) b = b
coalesce (some v) b = some v

abbrev bool_text : Bool → Str
bool_text true = lit "true"
bool_text false = lit "false"

unfoldable mutual
  unfolding decimal

  -- `String(v)`
  pub string_of : Json → Str
  string_of null = lit "null"
  string_of (bool b) = bool_text b
  string_of (number n) = decimal n
  string_of (text s) = s
  string_of (array vs) = strings_of vs
  string_of (object ms) = lit "[object Object]"

  -- `vs.join(",")`, where null is the empty text.
  strings_of : Jsons → Str
  strings_of end = []
  strings_of (item v end) = element_string v
  strings_of (item v (item w vs)) = element_string v ++ b',' ∷ strings_of (item w vs)

  element_string : Json → Str
  element_string null = []
  element_string (bool b) = bool_text b
  element_string (number n) = decimal n
  element_string (text s) = s
  element_string (array vs) = strings_of vs
  element_string (object ms) = lit "[object Object]"

-- `Boolean(v)`
abbrev pub boolean_of : Option Json → Bool
boolean_of none = false
boolean_of (some null) = false
boolean_of (some (bool b)) = b
boolean_of (some (number zero)) = false
boolean_of (some (number (suc n))) = true
boolean_of (some (text [])) = false
boolean_of (some (text (c ∷ s))) = true
boolean_of (some (array vs)) = true
boolean_of (some (object ms)) = true

-- `typeof v === 'string' ? v : …`
abbrev pub text_of : Option Json → Option Str
text_of (some (text s)) = some s
text_of _ = none

abbrev pub number_of : Option Json → Option ℕ
number_of (some (number n)) = some n
number_of _ = none

-- `Array.isArray(v) ? v.filter((item) => typeof item === 'string') : []`
unfoldable pub texts_in : Jsons → List Str
texts_in end = []
texts_in (item (text s) vs) = s ∷ texts_in vs
texts_in (item v vs) = texts_in vs

abbrev pub texts_of : Option Json → List Str
texts_of (some (array vs)) = texts_in vs
texts_of _ = []
