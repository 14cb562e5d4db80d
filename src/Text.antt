-- ===== src/Text.antt =====
-- What the web client uses of JavaScript's strings.
pub mod Laws
pub mod Split
use winkd.Prelude.{
  ℕ, ◌+◌, ◌<◌, ◌≡◌, Bool, true, false, ◌&&◌, ◌||◌, [], ◌∷◌, map, Str, str_eq, leb, ◌==◌, All,
  if◌then◌else◌,
}

-- WhiteSpace and LineTerminator: what `trim` removes and `\s` matches.
unfoldable pub is_space : ℕ → Bool
is_space c =
    (leb 9 c && leb c 13)
    || c == 32
    || c == 0xa0
    || c == 0x1680
    || (leb 0x2000 c && leb c 0x200a)
    || c == 0x2028
    || c == 0x2029
    || c == 0x202f
    || c == 0x205f
    || c == 0x3000
    || c == 0xfeff

unfoldable pub trim_start : Str → Str
trim_start [] = []
trim_start (c ∷ s) = let rest = trim_start s in if is_space c then rest else c ∷ s

-- Without the longest end of the text all of which passes.
unfoldable pub drop_end : (ℕ → Bool) → Str → Str
drop_end test [] = []
drop_end test (c ∷ s) = elim (drop_end test s) [
  | [] ↦ if test c then [] else c ∷ []
  | d ∷ r ↦ c ∷ d ∷ r
]

-- `s.trim()`
unfoldable pub trim : Str → Str
trim s = drop_end is_space (trim_start s)

-- `s.startsWith(prefix)`
unfoldable pub starts_with : (prefix : Str) → Str → Bool
starts_with [] s = true
starts_with (p ∷ ps) [] = false
starts_with (p ∷ ps) (c ∷ s) = p == c && starts_with ps s

-- `s.endsWith(suffix)`
unfoldable pub ends_with : (suffix : Str) → Str → Bool
ends_with suffix [] = str_eq [] suffix
ends_with suffix (c ∷ s) = str_eq (c ∷ s) suffix || ends_with suffix s

-- `s.slice(0, -1)`
unfoldable pub drop_last : Str → Str
drop_last [] = []
drop_last (c ∷ []) = []
drop_last (c ∷ d ∷ s) = c ∷ drop_last (d ∷ s)

-- `s.includes(part)`
unfoldable pub includes : (part : Str) → Str → Bool
includes part [] = starts_with part []
includes part (c ∷ s) =
    let rest = includes part s in if starts_with part (c ∷ s) then true else rest

unfoldable pub ascii_lower : ℕ → ℕ
ascii_lower c = if leb 65 c && leb c 90 then c + 32 else c

-- `s.toLowerCase()` after the tables of Unicode, which are not part of the program.
pub record Unicode : Type 0 where
  pub to_lower_case : Str → Str

abbrev pub IsAscii : Str → Type 0
IsAscii s = All (λ c. c < 128) s

-- The documented behaviour that is relied on.
pub record IsUnicode (unicode : Unicode) : Type 0 where
  pub lower_ascii : (s : Str) → IsAscii s → unicode.to_lower_case s ≡ map ascii_lower s
