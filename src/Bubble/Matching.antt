-- ===== src/Bubble/Matching.antt =====
-- What `URL_REGEX` matches.
use winkd.Prelude.{
  ℕ, zero, suc, ◌+◌, ◌≡◌, ◌≢◌, refl, ap, sym, ◌⊎◌, inl, inr, Bool, true, ◌||◌, [], ◌∷◌, ◌++◌, Str,
  take, drop, lit, length, arith, Bool-cases, ◌==◌,
}
use winkd.Text.{starts_with}
use winkd.Text.Split.{run}
use winkd.Text.Split.Matches.{IsMonotone}
use winkd.Emoji.{is_slug_char}
use winkd.Bubble.Urls.{prefixed, token_match, url_match, if_slug, if_more, or_match, not_space}

-- An address that a bubble may link to: no other scheme than these.
unfoldable pub is_web_address : Str → Bool
is_web_address s =
    starts_with (lit "http://") s
    || starts_with (lit "https://") s
    || starts_with (lit "/emoji-packs/") s
    || starts_with (lit "/msn-emoticons/") s
    || starts_with (lit ":") s

starts_with-tail :
    (p s : Str) (c d : ℕ) → starts_with (c ∷ p) (d ∷ s) ≡ true → starts_with p s ≡ true
unfolding starts_with
starts_with-tail p s c d h = ground arith

starts_with-take :
    (p s : Str) (k : ℕ) → starts_with p s ≡ true → starts_with p (take (length p + k) s) ≡ true
unfolding starts_with
starts_with-take [] s k h = refl
starts_with-take (c ∷ p) [] k h = cc
starts_with-take (c ∷ p) (d ∷ s) k h =
    let r = starts_with-take p s k (starts_with-tail p s c d h) in
    let e : suc (length p) + k ≡ suc (length p + k) = omega arith in rw e (ground (arith, r))

starts_with-append : (p s t : Str) → starts_with p s ≡ true → starts_with p (s ++ t) ≡ true
unfolding starts_with
starts_with-append [] s t h = refl
starts_with-append (c ∷ p) [] t h = cc
starts_with-append (c ∷ p) (d ∷ s) t h =
    let r = starts_with-append p s t (starts_with-tail p s c d h) in ground (arith, r)

drop-append :
    (p s t : Str) → starts_with p s ≡ true → drop (length p) (s ++ t) ≡ drop (length p) s ++ t
unfolding starts_with
drop-append [] s t h = refl
drop-append (c ∷ p) [] t h = cc
drop-append (c ∷ p) (d ∷ s) t h = drop-append p s t (starts_with-tail p s c d h)

run_more : (test : ℕ → Bool) (s t : Str) → run test s ≢ 0 → run test (s ++ t) ≢ 0
unfolding run
run_more test [] t h = absurd (h refl)
run_more test (c ∷ s) t h = elim (Bool-cases (test c)) [
  | inl e ↦ rw e (λ z. absurd (omega arith))
  | inr e ↦ absurd (h (rw e refl))
]

-- What a match of the prefix and more needs.
Follows : Str → Str → Type 0
Follows p s = (starts_with p s ≡ true) × (run not_space (drop (length p) s) ≢ 0)

prefixed-Follows : (p s : Str) → prefixed p s ≢ 0 → Follows p s
unfolding prefixed Follows
prefixed-Follows p s h = elim (Bool-cases (starts_with p s)) [
  | inl e ↦ (e, λ z. h (rw (e, z) refl))
  | inr e ↦ absurd (h (rw e refl))
]

if_more_pos : (b n : ℕ) → n ≢ 0 → if_more b n ≢ 0
if_more_pos b zero h = h
if_more_pos b (suc n) h = λ z. absurd (omega arith)

prefixed_pos : (p s : Str) → Follows p s → prefixed p s ≢ 0
unfolding prefixed Follows
prefixed_pos p s (e, k) = rw e (if_more_pos (length p) (run not_space (drop (length p) s)) k)

prefixed-IsMonotone : (p : Str) → IsMonotone (prefixed p)
unfolding Follows
prefixed-IsMonotone p s t h =
    let (e, k) = prefixed-Follows p s h in
    prefixed_pos p (s ++ t) (
      starts_with-append p s t e,
      rw (drop-append p s t e) (run_more not_space (drop (length p) s) t k),
    )

run_stops :
    (test : ℕ → Bool) (s t : Str) (d : ℕ) (r : Str)
    → drop (run test s) s ≡ d ∷ r
    → (run test (s ++ t) ≡ run test s) × (drop (run test s) (s ++ t) ≡ d ∷ (r ++ t))
unfolding run
run_stops test [] t d r h = absurd cc
run_stops test (c ∷ s) t d r h = elim (Bool-cases (test c)) [
  | inl e ↦ let (a, b) = run_stops test s t d r (rw e at h) in rw e (ap suc a, b)
  | inr e ↦ rw e (refl, ap (λ x. x ++ t) (rw e at h))
]

colon_first : (n : ℕ) (s : Str) → if_slug n s ≢ 0 → (n ≢ 0) × (r : Str) × (s ≡ 58 ∷ r)
colon_first zero s h = absurd (h refl)
colon_first (suc n) [] h = absurd (h refl)
colon_first (suc n) (c ∷ s) h = elim (Bool-cases (c == 58)) [
  | inl e ↦ (λ z. absurd (omega arith), s, ap (λ x. x ∷ s) (ground arith))
  | inr e ↦ absurd (h (rw e refl))
]

colon_pos : (n : ℕ) (s r : Str) → n ≢ 0 → s ≡ 58 ∷ r → if_slug n s ≢ 0
colon_pos zero s r h e = absurd (h refl)
colon_pos (suc n) s r h e = rw e (λ z. absurd (omega arith))

token_match-IsMonotone : IsMonotone token_match
unfolding token_match
token_match-IsMonotone [] t h = absurd (h refl)
token_match-IsMonotone (c ∷ s) t h = elim (Bool-cases (c == 58)) [
  | inl e ↦
      let n = run is_slug_char s in
      let (some_slug, r, f) = colon_first n (drop n s) (λ z. h (rw e z)) in
      let (same, rest) = run_stops is_slug_char s t 58 r f in
      rw (e, same) (colon_pos n (drop n (s ++ t)) (r ++ t) some_slug rest)
  | inr e ↦ absurd (h (rw e refl))
]

or_match_pos :
    (a b a' b' : ℕ) → (a ≢ 0 → a' ≢ 0) → (b ≢ 0 → b' ≢ 0) → or_match a b ≢ 0 → or_match a' b' ≢ 0
or_match_pos a b (suc a') b' ha hb h = λ z. absurd (omega arith)
or_match_pos zero b zero b' ha hb h = hb h
or_match_pos (suc a) b zero b' ha hb h = absurd (ha (λ z. absurd (omega arith)) refl)

or_match-IsMonotone :
    (f g : Str → ℕ) → IsMonotone f → IsMonotone g → IsMonotone (λ s. or_match (f s) (g s))
or_match-IsMonotone f g hf hg s t h =
    or_match_pos (f s) (g s) (f (s ++ t)) (g (s ++ t)) (hf s t) (hg s t) h

pub url_match-IsMonotone : IsMonotone url_match
unfolding url_match
url_match-IsMonotone = or_match-IsMonotone _ _ (prefixed-IsMonotone (lit "http://")) (
    or_match-IsMonotone _ _ (prefixed-IsMonotone (lit "https://")) (
      or_match-IsMonotone _ _ (prefixed-IsMonotone (lit "/emoji-packs/")) (
        or_match-IsMonotone _ _ (prefixed-IsMonotone (lit "/msn-emoticons/"))
          token_match-IsMonotone)))

or_match_either : (a b n : ℕ) → or_match a b ≡ suc n → (a ≡ suc n) ⊎ (b ≡ suc n)
or_match_either zero b n e = inr e
or_match_either (suc a) b n e = inl e

if_more_length : (b k n : ℕ) → if_more b k ≡ suc n → (m : ℕ) × (suc n ≡ b + m)
if_more_length b zero n e = absurd (omega arith)
if_more_length b (suc k) n e = (suc k, sym e)

-- The match of a prefix begins with it.
prefixed-take : (p s : Str) (n : ℕ) → prefixed p s ≡ suc n → starts_with p (take (suc n) s) ≡ true
unfolding prefixed
prefixed-take p s n e = elim (Bool-cases (starts_with p s)) [
  | inl f ↦
      let (m, g) = if_more_length (length p) (run not_space (drop (length p) s)) n (rw f at e) in
      rw g (starts_with-take p s m f)
  | inr f ↦ absurd (let z : 0 ≡ suc n = rw f at e in omega arith)
]

token_match-take :
    (s : Str) (n : ℕ) → token_match s ≡ suc n → starts_with (lit ":") (take (suc n) s) ≡ true
unfolding token_match starts_with
token_match-take [] n e = absurd (omega arith)
token_match-take (c ∷ s) n e = elim (Bool-cases (c == 58)) [
  | inl f ↦ ground arith
  | inr f ↦ absurd (let z : 0 ≡ suc n = rw f at e in omega arith)
]

-- A match is an address.
pub url_match-is_web_address :
    (s : Str) (n : ℕ) → url_match s ≡ suc n → is_web_address (take (suc n) s) ≡ true
unfolding url_match is_web_address
url_match-is_web_address s n e = elim (or_match_either _ _ n e) [
  | inl a ↦ let r = prefixed-take (lit "http://") s n a in ground (arith, r)
  | inr e1 ↦ elim (or_match_either _ _ n e1) [
    | inl a ↦ let r = prefixed-take (lit "https://") s n a in ground (arith, r)
    | inr e2 ↦ elim (or_match_either _ _ n e2) [
      | inl a ↦ let r = prefixed-take (lit "/emoji-packs/") s n a in ground (arith, r)
      | inr e3 ↦ elim (or_match_either _ _ n e3) [
        | inl a ↦ let r = prefixed-take (lit "/msn-emoticons/") s n a in ground (arith, r)
        | inr a ↦ let r = token_match-take s n a in ground (arith, r)
      ]
    ]
  ]
]
