-- ===== src/Avatar.antt =====
-- packages/ui/src/components/Avatar.tsx: what stands in for a picture.
use winkd.Prelude.{
  ℕ, zero, suc, ◌+◌, ◌%◌, ◌<◌, ◌≡◌, ◌≢◌, ap, Bool, true, false, not, ◌&&◌, Option, none, some, List,
  [], ◌∷◌, ◌++◌, map, Str, lit, ◌==◌, if◌then◌else◌, take, get_elem?, arith,
}
use winkd.Text.{starts_with}
use winkd.Text.Split.{cons_head}

abbrev pub gradient_pairs : List (Str × Str)
gradient_pairs =
    (lit "#4a90e2", lit "#1a5acc")
    ∷ (lit "#7b5ea7", lit "#4a2d7a")
    ∷ (lit "#e25c5c", lit "#a02020")
    ∷ (lit "#3aab6e", lit "#1a7040")
    ∷ (lit "#e2904a", lit "#a05020")
    ∷ (lit "#4ac4e2", lit "#1a80a0")
    ∷ []

-- `charCodeAt(0) + (charCodeAt(1) || 0)`; `none` is NaN.
abbrev code_sum : Str → Option ℕ
code_sum [] = none
code_sum (c ∷ []) = some c
code_sum (c ∷ d ∷ s) = some (c + d)

abbrev pair_at : Option ℕ → Option (Str × Str)
pair_at none = none
pair_at (some n) = get_elem? gradient_pairs (n % 6)

-- The colours of `gradientForInitials`; `none` is the TypeError of a missing pair.
unfoldable pub gradient_for_initials : Str → Option (Str × Str)
gradient_for_initials initials = pair_at (code_sum initials)

-- `displayName.split(" ")`
unfoldable pub words : Str → List Str
words [] = [] ∷ []
words (c ∷ s) = let rest = words s in if c == 32 then [] ∷ rest else cons_head c rest

-- `toUpperCase` of one UTF-16 unit, after the tables of Unicode.
pub record UpperCase : Type 0 where
  pub to_upper : ℕ → Str

abbrev concat_all : List Str → Str
concat_all [] = []
concat_all (s ∷ ss) = s ++ concat_all ss

module _ ⦃upper : UpperCase⦄ where
  -- `w[0]?.toUpperCase() ?? ""`
  abbrev first_letter : Str → Str
  first_letter [] = []
  first_letter (c ∷ s) = upper.to_upper c

  unfoldable pub initials_of : Str → Str
  initials_of display_name = concat_all (take 2 (map first_letter (words display_name)))

-- `a || b`
abbrev or_if_empty : Str → Str → Str
or_if_empty [] b = b
or_if_empty (c ∷ s) b = c ∷ s

-- The picture as it is shown: a bare base64 text gets its prefix.
unfoldable pub normalized_avatar_data : Option Str → Option Str
normalized_avatar_data none = none
normalized_avatar_data (some []) = some []
normalized_avatar_data (some (c ∷ s)) =
    if not (starts_with (lit "data:") (c ∷ s)) && not (starts_with (lit "http") (c ∷ s))
    then some (lit "data:image/png;base64," ++ (c ∷ s))
    else some (c ∷ s)

pub data Face : Type 0 where
  picture : (src : Str) → Face
  letters : Str → (gradient : Option (Str × Str)) → Face

abbrev face_of : Option Str → Str → Face
face_of (some (c ∷ s)) initials = Face.picture (c ∷ s)
face_of _ initials =
    Face.letters (or_if_empty initials (lit "?"))
      (gradient_for_initials (or_if_empty initials (lit "??")))

module _ ⦃upper : UpperCase⦄ where
  -- `Avatar`, without the dot of the status
  unfoldable pub avatar : (display_name : Str) → Option Str → Face
  avatar display_name avatar_data =
      face_of (normalized_avatar_data avatar_data) (initials_of display_name)

-- The face can be drawn: its picture is not empty, or there are letters and colours.
abbrev pub CanBeDrawn : Face → Type 0
CanBeDrawn (Face.picture src) = src ≢ []
CanBeDrawn (Face.letters s gradient) = (s ≢ []) × (gradient ≢ none)

is_none {ℓ} : {A : Type ℓ} → Option A → Bool
is_none none = true
is_none (some a) = false

there {ℓ} : {A : Type ℓ} (a : A) → some a ≢ none
unfolding is_none
there a e = let f : false ≡ true = ap is_none e in cc

pair-there : (i : ℕ) → i < 6 → get_elem? gradient_pairs i ≢ none
pair-there zero h = there _
pair-there (suc zero) h = there _
pair-there (suc (suc zero)) h = there _
pair-there (suc (suc (suc zero))) h = there _
pair-there (suc (suc (suc (suc zero)))) h = there _
pair-there (suc (suc (suc (suc (suc zero))))) h = there _
pair-there (suc (suc (suc (suc (suc (suc i)))))) h = absurd (omega arith)

gradient_there : (c : ℕ) (s : Str) → gradient_for_initials (c ∷ s) ≢ none
unfolding gradient_for_initials
gradient_there c [] = pair-there (c % 6) (omega arith)
gradient_there c (d ∷ s) = pair-there ((c + d) % 6) (omega arith)

text_there : (c : ℕ) (s : Str) → (c ∷ s) ≢ []
text_there c s e = absurd cc

letters-CanBeDrawn :
    (initials : Str)
    → CanBeDrawn (
        Face.letters
          (or_if_empty initials (lit "?"))
          (gradient_for_initials (or_if_empty initials (lit "??"))))
letters-CanBeDrawn [] = (text_there _ _, gradient_there _ _)
letters-CanBeDrawn (c ∷ s) = (text_there c s, gradient_there c s)

face_of-CanBeDrawn : (o : Option Str) (initials : Str) → CanBeDrawn (face_of o initials)
face_of-CanBeDrawn none initials = letters-CanBeDrawn initials
face_of-CanBeDrawn (some []) initials = letters-CanBeDrawn initials
face_of-CanBeDrawn (some (c ∷ s)) initials = text_there c s

-- Whatever the name and the picture are, also where the name is empty or begins with spaces: the
-- avatar is a picture whose address is not empty, or it shows some letters, and the colours behind
-- them are found.
avatar-CanBeDrawn :
    ⦃upper : UpperCase⦄
    → (display_name : Str) (avatar_data : Option Str) → CanBeDrawn (avatar display_name avatar_data)
unfolding avatar
avatar-CanBeDrawn display_name avatar_data =
    face_of-CanBeDrawn (normalized_avatar_data avatar_data) (initials_of display_name)
