-- ===== src/Text/Split.antt =====
-- Splitting a text by a regular expression whose only group is the whole of it: `s.split(regex)` has
-- the texts between the matches, and the matches.
pub mod Laws
pub mod Matches
use winkd.Prelude.{ℕ, zero, suc, Bool, true, false, ◌||◌, List, [], ◌∷◌, Str, ltb, if◌then◌else◌}

-- The number of characters at the start that pass.
unfoldable pub run : (ℕ → Bool) → Str → ℕ
run test [] = 0
run test (c ∷ s) = let rest = run test s in if test c then suc rest else 0

abbrev pub cons_head : ℕ → List Str → List Str
cons_head c [] = (c ∷ []) ∷ []
cons_head c (p ∷ ps) = (c ∷ p) ∷ ps

-- The first piece has more characters, or ends here.
abbrev pub in_match : ℕ → ℕ → List Str → List Str
in_match zero c ps = (c ∷ []) ∷ ps
in_match (suc n) c ps = cons_head c ps

-- A piece outside of a match, and the first character of the next match of length n, if not 0.
abbrev pub outside : ℕ → ℕ → List Str → List Str → List Str
outside zero c plain inside = cons_head c plain
outside (suc n) c plain inside = [] ∷ in_match n c inside

-- The pieces of a text of whose current match that many characters are left. `matched` is the length
-- of the match at the start of a text, or 0.
unfoldable pub pieces : (matched : Str → ℕ) (left : ℕ) → Str → List Str
pieces matched left [] = [] ∷ []
pieces matched (suc n) (c ∷ s) = in_match n c (pieces matched n s)
pieces matched zero (c ∷ s) =
    let found = matched (c ∷ s) in
    let inside = pieces matched (elim found [ zero ↦ 0 | suc n ↦ n ]) s in
    let plain = pieces matched zero s in outside found c plain inside

unfoldable pub split_by : (matched : Str → ℕ) → Str → List Str
split_by matched text = pieces matched 0 text

-- There is a match somewhere in the text.
unfoldable pub has_match : (matched : Str → ℕ) → Str → Bool
has_match matched [] = false
has_match matched (c ∷ s) = let rest = has_match matched s in ltb 0 (matched (c ∷ s)) || rest
