-- ===== src/Socket/Hook/Stale.antt =====
-- What the close event of an old connection of `useSocket` does to a new one.
use winkd.Prelude.{
  ℕ, zero, suc, length-append, subst, ◌<◌, ◌≡◌, refl, sym, ◌∙◌, true, Option, none, some, List, [],
  ◌∷◌, ◌++◌, Str, get_elem?, length, arith, Option-cases, inl, inr,
}
use winkd.Connections.{
  ReadyState, connecting, opened, closed, set, close, is_opened, get_elem-append_last, length-set,
  length-close, set-append_last,
}
use winkd.Auth.{AuthState, SignedIn}
use winkd.Socket.Hook.{Hook, start, clean_up, on_open, on_close, on_error, send, captured_by}
use winkd.Socket.Hook.Laws.{Reached}

-- As many closures as connections.
abbrev HasLengths : Hook → Type 0
HasLengths h = length h.captured ≡ length h.connections

start-HasLengths :
    (session : AuthState) (active : Option Str) (h : Hook)
    → HasLengths h
    → HasLengths (start session active h)
unfolding start
start-HasLengths none active h e = e
start-HasLengths (some session) active h e = omega (
  arith,
  length-append h.connections (connecting ∷ []),
  length-append h.captured (captured_by session active ∷ []),
)

on_open-HasLengths : (k : ℕ) (h : Hook) → HasLengths h → HasLengths (on_open k h)
unfolding on_open
on_open-HasLengths k h e = elim (Option-cases (get_elem? h.captured k)) [
  | inl f ↦ rw (f, on_open) e
  | inr (c, f) ↦ rw (f, on_open) (e ∙ sym (length-set k opened h.connections))
]

send-HasLengths : (text : Str) (h : Hook) → HasLengths h → HasLengths (send text h)
unfolding send
send-HasLengths text h e = ground arith

Reached-HasLengths : {h : Hook} → Reached h → HasLengths h
unfolding clean_up on_close on_error
Reached-HasLengths Reached.mounted = refl
Reached-HasLengths (Reached.started session active {h} r) =
    start-HasLengths session active h (Reached-HasLengths r)
Reached-HasLengths (Reached.cleaned_up k {h} r) =
    Reached-HasLengths r ∙ sym (length-close k h.connections)
Reached-HasLengths (Reached.opens k {h} e r) = on_open-HasLengths k h (Reached-HasLengths r)
Reached-HasLengths (Reached.closes k code session {h} r) =
    Reached-HasLengths r ∙ sym (length-set k closed h.connections)
Reached-HasLengths (Reached.fails {h} r) = Reached-HasLengths r
Reached-HasLengths (Reached.sends text {h} r) = send-HasLengths text h (Reached-HasLengths r)

last_is_opened :
    (rs : List ReadyState) → is_opened (get_elem? (rs ++ opened ∷ []) (length rs)) ≡ true
unfolding is_opened
last_is_opened [] = refl
last_is_opened (r ∷ rs) = last_is_opened rs

-- Closing an earlier connection leaves the last one open.
set_earlier :
    (k : ℕ) (rs : List ReadyState)
    → k < length rs
    → is_opened (get_elem? (set k closed (rs ++ opened ∷ [])) (length rs)) ≡ true
unfolding set
set_earlier k [] old = absurd (omega arith)
set_earlier zero (r ∷ rs) old = last_is_opened rs
set_earlier (suc k) (r ∷ rs) old = set_earlier k rs (omega arith)

last_opened :
    (k : ℕ) (rs : List ReadyState)
    → k < length rs
    → is_opened (
        get_elem?
          (set k closed (set (length rs) opened (close k rs ++ connecting ∷ [])))
          (length rs))
      ≡ true
last_opened k rs old =
    subst
      (λ n.
        is_opened (get_elem? (set k closed (set n opened (close k rs ++ connecting ∷ []))) n)
        ≡ true)
      (length-close k rs)
      (rw (set-append_last connecting opened (close k rs))
        (set_earlier k (close k rs) (omega (arith, length-close k rs))))

-- What a close event does to a later connection: an old connection k is cleaned up, the effect opens
-- a new one, and the new one opens. When the close event of the old one comes after that, every
-- call of `send` is dropped, although the new connection is open.
pub send-on_close_old :
    (h : Hook) (k code : ℕ) (session : SignedIn) (active : Option Str) (auth_state : AuthState)
    (text : Str)
    → Reached h
    → k < length h.connections
    → let now : Hook =
        (on_close k code (
          on_open (length h.connections) (start (some session) active (clean_up k h)),
          auth_state,
        )).0 in
      (is_opened (get_elem? now.connections (length h.connections)) ≡ true) × (send text now ≡ now)
unfolding send on_close start clean_up on_open
send-on_close_old h k code session active auth_state text r old =
    let found : get_elem? (h.captured ++ captured_by session active ∷ []) (length h.connections)
        ≡ some (captured_by session active) =
      ground (
        arith,
        get_elem-append_last (length h.connections) (captured_by session active) h.captured,
        Reached-HasLengths r,
      ) in
    (rw (found, on_open) (last_opened k h.connections old), refl)
