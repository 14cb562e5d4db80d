-- ===== src/Connections.antt =====
-- WebSocket connections by the number of their creation, and the log of what was sent on them, as
-- far as useSocket.ts and packages/core/src/protocol/client.ts use the browser's WebSocket.
use winkd.Prelude.{
  ℕ, zero, suc, ◌≡◌, refl, Bool, true, false, ◌||◌, Option, none, some, List, [], ◌∷◌, ◌++◌, Str,
  ◌==◌, if◌then◌else◌, get_elem?, length, arith, ap, ◌⊎◌, Option-cases, inl, inr,
}

-- `readyState`; `opened` is OPEN.
pub data ReadyState : Type 0 where
  connecting opened closing closed : ReadyState

-- What is sent: the session token, or the JSON text of a payload.
pub data Outgoing : Type 0 where
  auth : Str → Outgoing
  payload : Str → Outgoing

-- Newest first.
abbrev pub Log : Type 0
Log = List (ℕ × Outgoing)

-- A write out of range changes nothing.
unfoldable pub set {ℓ} : {A : Type ℓ} → ℕ → A → List A → List A
set i a [] = []
set zero a (x ∷ xs) = a ∷ xs
set (suc i) a (x ∷ xs) = x ∷ set i a xs

pub get_elem-set {ℓ} :
    {A : Type ℓ} (i j : ℕ) (a : A) (xs : List A)
    → get_elem? (set i a xs) j ≡ (
        if i == j
        then (elim (get_elem? xs j) [ none ↦ none | some _ ↦ some a ])
        else get_elem? xs j)
unfolding set
get_elem-set i j a [] = ground arith
get_elem-set zero zero a (x ∷ xs) = refl
get_elem-set zero (suc j) a (x ∷ xs) = ground arith
get_elem-set (suc i) zero a (x ∷ xs) = ground arith
get_elem-set (suc i) (suc j) a (x ∷ xs) = ground (arith, get_elem-set i j a xs)

pub get_elem-append_last {ℓ} :
    {A : Type ℓ} (j : ℕ) (a : A) (xs : List A)
    → get_elem? (xs ++ a ∷ []) j ≡ (if j == length xs then some a else get_elem? xs j)
get_elem-append_last zero a [] = ground arith
get_elem-append_last (suc j) a [] = ground arith
get_elem-append_last zero a (x ∷ xs) = ground arith
get_elem-append_last (suc j) a (x ∷ xs) = ground (arith, get_elem-append_last j a xs)

unfoldable pub is_opened : Option ReadyState → Bool
is_opened (some opened) = true
is_opened _ = false

-- `close()`: nothing happens to a connection that is closed already.
abbrev pub closing_state : ReadyState → ReadyState
closing_state closed = closed
closing_state _ = closing

unfoldable pub close : ℕ → List ReadyState → List ReadyState
close k rs = elim (get_elem? rs k) [ none ↦ rs | some r ↦ set k (closing_state r) rs ]

pub length-set {ℓ} : {A : Type ℓ} (i : ℕ) (a : A) (xs : List A) → length (set i a xs) ≡ length xs
unfolding set
length-set i a [] = refl
length-set zero a (x ∷ xs) = refl
length-set (suc i) a (x ∷ xs) = ap suc (length-set i a xs)

pub length-close : (k : ℕ) (rs : List ReadyState) → length (close k rs) ≡ length rs
unfolding close
length-close k rs = elim (Option-cases (get_elem? rs k)) [
  | inl e ↦ rw (e, close) refl
  | inr (r, e) ↦ rw (e, close) (length-set k (closing_state r) rs)
]

-- The last of a list can be set.
pub set-append_last {ℓ} :
    {A : Type ℓ} (a b : A) (xs : List A) → set (length xs) b (xs ++ a ∷ []) ≡ xs ++ b ∷ []
unfolding set
set-append_last a b [] = refl
set-append_last a b (x ∷ xs) = ap (λ r. x ∷ r) (set-append_last a b xs)

-- A new connection is not open yet.
pub is_opened-append :
    (k : ℕ) (rs : List ReadyState)
    → is_opened (get_elem? (rs ++ connecting ∷ []) k) ≡ is_opened (get_elem? rs k)
unfolding is_opened
is_opened-append zero [] = refl
is_opened-append (suc k) [] = refl
is_opened-append zero (r ∷ rs) = refl
is_opened-append (suc k) (r ∷ rs) = is_opened-append k rs

-- A connection that is set to a state that is not open opens no other.
pub is_opened-set :
    (i k : ℕ) (r : ReadyState) (rs : List ReadyState)
    → is_opened (some r) ≡ false
    → is_opened (get_elem? (set i r rs) k) ≡ true
    → is_opened (get_elem? rs k) ≡ true
unfolding set is_opened
is_opened-set i k r [] e h = h
is_opened-set zero zero r (x ∷ rs) e h = cc
is_opened-set zero (suc k) r (x ∷ rs) e h = h
is_opened-set (suc i) zero r (x ∷ rs) e h = h
is_opened-set (suc i) (suc k) r (x ∷ rs) e h = is_opened-set i k r rs e h

pub is_opened-close :
    (i k : ℕ) (rs : List ReadyState)
    → is_opened (get_elem? (close i rs) k) ≡ true
    → is_opened (get_elem? rs k) ≡ true
unfolding close is_opened
is_opened-close i k rs h = elim (Option-cases (get_elem? rs i)) [
  | inl e ↦ rw (e, close) at h
  | inr (r, e) ↦ is_opened-set i k (closing_state r) rs (closing_state_shut r) (rw (e, close) at h)
]
  where
    closing_state_shut : (r : ReadyState) → is_opened (some (closing_state r)) ≡ false
    closing_state_shut connecting = refl
    closing_state_shut opened = refl
    closing_state_shut closing = refl
    closing_state_shut closed = refl

-- A connection that was just made is not open.
pub new_is_shut :
    (rs : List ReadyState) → is_opened (get_elem? (rs ++ connecting ∷ []) (length rs)) ≡ false
unfolding is_opened
new_is_shut [] = refl
new_is_shut (r ∷ rs) = new_is_shut rs

pub closed_is_shut :
    (k : ℕ) (rs : List ReadyState) → is_opened (get_elem? (set k closed rs) k) ≡ false
unfolding is_opened set
closed_is_shut k [] = refl
closed_is_shut zero (r ∷ rs) = refl
closed_is_shut (suc k) (r ∷ rs) = closed_is_shut k rs

-- Where a connection is opened, no other opens.
pub is_opened-set-opened :
    (i k : ℕ) (rs : List ReadyState)
    → is_opened (get_elem? (set i opened rs) k) ≡ true
    → (i ≡ k) ⊎ (is_opened (get_elem? rs k) ≡ true)
unfolding set is_opened
is_opened-set-opened i k [] h = inr h
is_opened-set-opened zero zero (x ∷ rs) h = inl refl
is_opened-set-opened zero (suc k) (x ∷ rs) h = inr h
is_opened-set-opened (suc i) zero (x ∷ rs) h = inr h
is_opened-set-opened (suc i) (suc k) (x ∷ rs) h = elim (is_opened-set-opened i k rs h) [
  | inl e ↦ inl (ap suc e)
  | inr o ↦ inr o
]

-- The token was sent on the connection.
unfoldable pub has_auth : ℕ → Log → Bool
has_auth k [] = false
has_auth k ((i, auth token) ∷ log) = i == k || has_auth k log
has_auth k ((i, payload text) ∷ log) = has_auth k log

-- Before any payload, the token was sent on the same connection.
abbrev pub AuthFirst : Log → Type 0
AuthFirst [] = Unit
AuthFirst ((i, auth token) ∷ log) = AuthFirst log
AuthFirst ((i, payload text) ∷ log) = (has_auth i log ≡ true) × AuthFirst log

-- What is logged later takes no token away.
pub has_auth-cons :
    (k i : ℕ) (o : Outgoing) (log : Log) → has_auth k log ≡ true → has_auth k ((i, o) ∷ log) ≡ true
unfolding has_auth
has_auth-cons k i (auth token) log h = ground (arith, h)
has_auth-cons k i (payload text) log h = h

pub has_auth_self : (k : ℕ) (token : Str) (log : Log) → has_auth k ((k, auth token) ∷ log) ≡ true
unfolding has_auth
has_auth_self k token log = ground arith
