-- ===== src/Bubble/Urls.antt =====
-- The regular expressions of MessageBubble.tsx.
use winkd.Prelude.{
  ℕ, zero, suc, ◌+◌, Bool, true, false, not, ◌&&◌, ◌||◌, List, [], ◌∷◌, map, Str, lit, ◌==◌,
  if◌then◌else◌, drop, length,
}
use winkd.Text.{is_space, starts_with, ascii_lower}
use winkd.Text.Split.{run, split_by, has_match}
use winkd.Emoji.{is_slug_char}

abbrev pub not_space : ℕ → Bool
not_space c = not (is_space c)

-- The length of a match, if any characters follow.
abbrev pub if_more : (before more : ℕ) → ℕ
if_more before zero = 0
if_more before (suc n) = before + suc n

-- A prefix and at least one character that is no space: their length, or 0.
unfoldable pub prefixed : (prefix : Str) → Str → ℕ
prefixed prefix s =
    if starts_with prefix s
    then if_more (length prefix) (run not_space (drop (length prefix) s))
    else 0

abbrev pub if_colon : ℕ → Str → ℕ
if_colon n [] = 0
if_colon n (c ∷ s) = if c == 58 then n + 2 else 0

abbrev pub if_slug : ℕ → Str → ℕ
if_slug zero s = 0
if_slug (suc n) s = if_colon (suc n) s

-- `:[a-z0-9-]+:`, its length, or 0
unfoldable pub token_match : Str → ℕ
token_match [] = 0
token_match (c ∷ s) = let n = run is_slug_char s in if c == 58 then if_slug n (drop n s) else 0

abbrev pub or_match : ℕ → ℕ → ℕ
or_match zero n = n
or_match (suc m) n = suc m

-- The length of what `URL_REGEX` matches at the start of the text, or 0.
unfoldable pub url_match : Str → ℕ
url_match s = or_match (prefixed (lit "http://") s) (
    or_match (prefixed (lit "https://") s) (
      or_match (prefixed (lit "/emoji-packs/") s)
        (or_match (prefixed (lit "/msn-emoticons/") s) (token_match s))))

-- `part.match(URL_REGEX)` is not null: there is a match somewhere in the part.
unfoldable pub has_url : Str → Bool
has_url part = has_match url_match part

-- `body.split(URL_REGEX)`
unfoldable pub body_parts : Str → List Str
body_parts body = split_by url_match body

-- `body.match(URL_REGEX) ?? []`: every second piece.
unfoldable pub matches_in : List Str → List Str
matches_in [] = []
matches_in (p ∷ []) = []
matches_in (p ∷ m ∷ ps) = m ∷ matches_in ps

-- `(\.gif|\.webp|\.png|\.jpg|\.jpeg)(\?|$)` at the start
abbrev is_end : Str → Bool
is_end [] = true
is_end (c ∷ s) = c == 63

abbrev extension_at : Str → Bool
extension_at s =
    (starts_with (lit ".gif") s && is_end (drop 4 s))
    || (starts_with (lit ".webp") s && is_end (drop 5 s))
    || (starts_with (lit ".png") s && is_end (drop 4 s))
    || (starts_with (lit ".jpg") s && is_end (drop 4 s))
    || (starts_with (lit ".jpeg") s && is_end (drop 5 s))

-- That, anywhere.
unfoldable pub has_extension : Str → Bool
has_extension [] = false
has_extension (c ∷ s) = let rest = has_extension s in extension_at (c ∷ s) || rest

abbrev host_at : Str → Bool
host_at s = starts_with (lit "giphy.com/") s || starts_with (lit "tenor.com/") s

abbrev after_www : Str → Bool
after_www s = host_at s || (starts_with (lit "www.") s && host_at (drop 4 s))

abbrev gif_site_at : Str → Bool
gif_site_at s =
    (starts_with (lit "http://") s && after_www (drop 7 s))
    || (starts_with (lit "https://") s && after_www (drop 8 s))

unfoldable pub has_gif_site : Str → Bool
has_gif_site [] = false
has_gif_site (c ∷ s) = let rest = has_gif_site s in gif_site_at (c ∷ s) || rest

-- `shouldHideCompanionGifLink`
unfoldable pub should_hide_companion_gif_link : Str → Bool
should_hide_companion_gif_link raw = has_gif_site (map ascii_lower raw)
