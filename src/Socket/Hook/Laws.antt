-- ===== src/Socket/Hook/Laws.antt =====
-- What the connections of `useSocket` send.
use winkd.Prelude.{
  ℕ, ◌≡◌, refl, true, Option, none, some, Str, get_elem?, Bool-cases, Option-cases, inl, inr,
}
use winkd.Connections.{
  connecting, closed, auth, payload, is_opened, is_opened-append, is_opened-set, is_opened-close,
  is_opened-set-opened, has_auth, AuthFirst, has_auth-cons, has_auth_self,
}
use winkd.Auth.{AuthState}
use winkd.Socket.Hook.{Hook, unmounted, start, clean_up, on_open, on_close, on_error, send}

-- The states that the effect, its clean-ups, the browser's events and calls of `send` reach. A
-- connection opens once, while it is connecting.
pub data Reached : Hook → Type 0 where
  mounted : Reached unmounted
  started :
      (session : AuthState) (active : Option Str) {h : Hook}
      → Reached h
      → Reached (start session active h)
  cleaned_up : (k : ℕ) {h : Hook} → Reached h → Reached (clean_up k h)
  opens :
      (k : ℕ) {h : Hook}
      → get_elem? h.connections k ≡ some connecting
      → Reached h
      → Reached (on_open k h)
  closes :
      (k code : ℕ) (session : AuthState) {h : Hook}
      → Reached h
      → Reached (on_close k code (h, session)).0
  fails : {h : Hook} → Reached h → Reached (on_error h)
  sends : (text : Str) {h : Hook} → Reached h → Reached (send text h)

-- The token was sent on each open connection, and before any payload.
pub record IsAuthFirst (h : Hook) : Type 0 where
  pub opened_auth :
      (k : ℕ) → is_opened (get_elem? h.connections k) ≡ true → has_auth k h.sent ≡ true
  pub in_order : AuthFirst h.sent

start-IsAuthFirst :
    (session : AuthState) (active : Option Str) (h : Hook)
    → IsAuthFirst h
    → IsAuthFirst (start session active h)
unfolding start
start-IsAuthFirst none active h v = v
start-IsAuthFirst (some session) active h v = record {
  opened_auth = λ k. λ o. v.opened_auth k (rw (is_opened-append k h.connections) at o);
  in_order = v.in_order;
}

clean_up-IsAuthFirst : (k : ℕ) (h : Hook) → IsAuthFirst h → IsAuthFirst (clean_up k h)
unfolding clean_up
clean_up-IsAuthFirst k h v = record {
  opened_auth = λ j o. v.opened_auth j (is_opened-close k j h.connections o);
  in_order = v.in_order;
}

on_open-IsAuthFirst : (k : ℕ) (h : Hook) → IsAuthFirst h → IsAuthFirst (on_open k h)
unfolding on_open
on_open-IsAuthFirst k h v = elim (Option-cases (get_elem? h.captured k)) [
  | inl e ↦ rw (e, on_open) v
  | inr (c, e) ↦
      rw (e, on_open)
        (record {
          opened_auth = λ j o. elim (is_opened-set-opened k j h.connections o) [
            | inl same ↦ rw (← same) (has_auth_self k c.token h.sent)
            | inr old ↦ has_auth-cons j k (auth c.token) h.sent (v.opened_auth j old)
          ];
          in_order = v.in_order;
        })
]

on_close-IsAuthFirst :
    (k code : ℕ) (session : AuthState) (h : Hook)
    → IsAuthFirst h
    → IsAuthFirst (on_close k code (h, session)).0
unfolding on_close is_opened
on_close-IsAuthFirst k code session h v = record {
  opened_auth = λ j o. v.opened_auth j (is_opened-set k j closed h.connections refl o);
  in_order = v.in_order;
}

on_error-IsAuthFirst : (h : Hook) → IsAuthFirst h → IsAuthFirst (on_error h)
unfolding on_error
on_error-IsAuthFirst h v = record { opened_auth = v.opened_auth; in_order = v.in_order }

send-IsAuthFirst : (text : Str) (h : Hook) → IsAuthFirst h → IsAuthFirst (send text h)
unfolding send
send-IsAuthFirst text h v = elim (Option-cases h.ws_ref) [
  | inl e ↦ rw (e, send) v
  | inr (k, e) ↦ elim (Bool-cases (is_opened (get_elem? h.connections k))) [
    | inr shut ↦ rw (e, shut, send) v
    | inl o ↦
        rw (e, o, send)
          (record {
            opened_auth = λ j p. has_auth-cons j k (payload text) h.sent (v.opened_auth j p);
            in_order = (v.opened_auth k o, v.in_order);
          })
  ]
]

Reached-IsAuthFirst : {h : Hook} → Reached h → IsAuthFirst h
unfolding is_opened
Reached-IsAuthFirst Reached.mounted = record { opened_auth = λ k o. cc; in_order = tt }
Reached-IsAuthFirst (Reached.started session active {h} r) =
    start-IsAuthFirst session active h (Reached-IsAuthFirst r)
Reached-IsAuthFirst (Reached.cleaned_up k {h} r) = clean_up-IsAuthFirst k h (Reached-IsAuthFirst r)
Reached-IsAuthFirst (Reached.opens k {h} e r) = on_open-IsAuthFirst k h (Reached-IsAuthFirst r)
Reached-IsAuthFirst (Reached.closes k code session {h} r) =
    on_close-IsAuthFirst k code session h (Reached-IsAuthFirst r)
Reached-IsAuthFirst (Reached.fails {h} r) = on_error-IsAuthFirst h (Reached-IsAuthFirst r)
Reached-IsAuthFirst (Reached.sends text {h} r) = send-IsAuthFirst text h (Reached-IsAuthFirst r)

-- Whatever the effect, its clean-ups, the browser's events and calls of `send` do: on each
-- connection the session token was sent before any payload.
pub Reached-AuthFirst : {h : Hook} → Reached h → AuthFirst h.sent
Reached-AuthFirst r = (Reached-IsAuthFirst r).in_order
