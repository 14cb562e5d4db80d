-- ===== src/Client/Sound.antt =====
-- What each method and each event of the browser keeps of a client.
use winkd.Prelude.{
  ℕ, ◌≤◌, ◌≡◌, refl, subst, ◌&&◌, true, Option, none, some, List, [], ◌∷◌, ◌++◌, Str, ◌==◌,
  get_elem?, length, arith, str_eq_instance, Bool-cases, Option-cases, inl, inr,
}
use winkd.Prelude.Dict
use winkd.Json.{Members}
use winkd.Connections.{
  ReadyState, connecting, opened, closing, closed, auth, payload, Log, set, is_opened,
  is_opened-set, has_auth, AuthFirst, has_auth-cons, has_auth_self, new_is_shut,
}
use winkd.Client.{
  Client, ws_state, state_of, connect, send_on, on_open, on_message, schedule_reconnect, on_close,
  disconnect, send, on, off, back_off, has_timer, on_timer,
}

-- The token was sent on the client's connection if that is open, and on every connection before any
-- payload; and the delay is in its range.
pub record IsSound (c : Client) : Type 0 where
  pub opened_auth :
      (k : ℕ)
      → c.ws ≡ some k
      → is_opened (get_elem? c.connections k) ≡ true
      → has_auth k c.sent ≡ true
  pub in_order : AuthFirst c.sent
  pub lower : 1000 ≤ c.reconnect_delay
  pub upper : c.reconnect_delay ≤ 30000

abbrev OpenedAuth : Option ℕ → List ReadyState → Log → Type 0
OpenedAuth ws rs log =
    (k : ℕ) → ws ≡ some k → is_opened (get_elem? rs k) ≡ true → has_auth k log ≡ true

new-OpenedAuth :
    (rs : List ReadyState) (log : Log) → OpenedAuth (some (length rs)) (rs ++ connecting ∷ []) log
new-OpenedAuth rs log k same o =
    let here : length rs ≡ k = cc same in
    let shut = new_is_shut rs in let open_here = rw (← here) at o in cc (shut, open_here)

pub connect-IsSound : (c : Client) → IsSound c → IsSound (connect c)
unfolding connect
connect-IsSound c v = elim (Bool-cases (is_opened (ws_state c))) [
  | inl e ↦ rw (e, connect) v
  | inr e ↦
      rw (e, connect)
        (record {
          opened_auth = new-OpenedAuth c.connections c.sent;
          in_order = v.in_order;
          lower = v.lower;
          upper = v.upper;
        })
]

auth_sent :
    (token : Str) (k : ℕ) (r : Option ReadyState) (log : Log)
    → is_opened r ≡ true
    → has_auth k (send_on (some k) r (auth token) log) ≡ true
unfolding is_opened
auth_sent token k none log o = cc
auth_sent token k (some connecting) log o = cc
auth_sent token k (some opened) log o = has_auth_self k token log
auth_sent token k (some closing) log o = cc
auth_sent token k (some closed) log o = cc

on_open-OpenedAuth :
    (token : Str) (ws : Option ℕ) (rs : List ReadyState) (log : Log)
    → OpenedAuth ws rs (send_on ws (state_of ws rs) (auth token) log)
on_open-OpenedAuth token none rs log k same o = cc
on_open-OpenedAuth token (some i) rs log k same o =
    let here : i ≡ k = cc same in
    let open_here : is_opened (get_elem? rs i) ≡ true = rw here o in
    subst (λ j. has_auth j (send_on (some i) (get_elem? rs i) (auth token) log) ≡ true) here
      (auth_sent token i (get_elem? rs i) log open_here)

send_on-AuthFirst :
    (token : Str) (ws : Option ℕ) (r : Option ReadyState) (log : Log)
    → AuthFirst log
    → AuthFirst (send_on ws r (auth token) log)
send_on-AuthFirst token none r log v = v
send_on-AuthFirst token (some k) none log v = v
send_on-AuthFirst token (some k) (some connecting) log v = v
send_on-AuthFirst token (some k) (some opened) log v = v
send_on-AuthFirst token (some k) (some closing) log v = v
send_on-AuthFirst token (some k) (some closed) log v = v

pub on_open-IsSound : (k : ℕ) (c : Client) → IsSound c → IsSound (on_open k c)
unfolding on_open
on_open-IsSound k c v = record {
  opened_auth = on_open-OpenedAuth c.session_token c.ws (set k opened c.connections) c.sent;
  in_order = send_on-AuthFirst c.session_token c.ws _ c.sent v.in_order;
  lower = omega arith;
  upper = omega arith;
}

-- A payload goes out where the token went out before.
send_on-payload :
    (text : Str) (ws : Option ℕ) (rs : List ReadyState) (log : Log)
    → OpenedAuth ws rs log
    → AuthFirst log
    → is_opened (state_of ws rs) ≡ true
    → OpenedAuth ws rs (send_on ws (state_of ws rs) (payload text) log)
      × AuthFirst (send_on ws (state_of ws rs) (payload text) log)
send_on-payload text none rs log a v o = (a, v)
send_on-payload text (some k) rs log a v o = by_state (get_elem? rs k) refl
  where
    by_state :
        (r : Option ReadyState)
        → get_elem? rs k ≡ r
        → OpenedAuth (some k) rs (send_on (some k) r (payload text) log)
          × AuthFirst (send_on (some k) r (payload text) log)
    by_state none e = (a, v)
    by_state (some connecting) e = (a, v)
    by_state (some opened) e =
        (λ j same p. has_auth-cons j k (payload text) log (a j same p), (a k refl o, v))
    by_state (some closing) e = (a, v)
    by_state (some closed) e = (a, v)

pub send-IsSound : (text : Str) (c : Client) → IsSound c → IsSound (send text c)
unfolding send
send-IsSound text c v = elim (Bool-cases (c.authenticated && is_opened (ws_state c))) [
  | inr e ↦ rw (e, send) v
  | inl e ↦
      let o : is_opened (ws_state c) ≡ true = ground (arith, e) in
      let (a, f) = send_on-payload text c.ws c.connections c.sent v.opened_auth v.in_order o in
      rw (e, send) (record { opened_auth = a; in_order = f; lower = v.lower; upper = v.upper })
]

pub on_message-IsSound :
    (members : Option Members) (c : Client) → IsSound c → IsSound (on_message members c).0
unfolding on_message
on_message-IsSound none c v = v
on_message-IsSound (some members) c v = elim (Bool-cases c.authenticated) [
  | inl e ↦
      rw (e, on_message)
        (record {
          opened_auth = v.opened_auth;
          in_order = v.in_order;
          lower = v.lower;
          upper = v.upper;
        })
  | inr e ↦
      rw (e, on_message)
        (record {
          opened_auth = v.opened_auth;
          in_order = v.in_order;
          lower = v.lower;
          upper = v.upper;
        })
]

pub on_close-IsSound : (k code : ℕ) (c : Client) → IsSound c → IsSound (on_close k code c)
unfolding on_close schedule_reconnect
on_close-IsSound k code c v =
    let opened_auth : OpenedAuth c.ws (set k closed c.connections) c.sent = λ j same o.
      v.opened_auth j same (is_opened-set k j closed c.connections (unfold is_opened in refl) o) in
    elim (Bool-cases (code == 4001)) [
      | inl e ↦ rw e (record {
        opened_auth = opened_auth;
        in_order = v.in_order;
        lower = v.lower;
        upper = v.upper;
      })
      | inr e ↦ rw e (record {
        opened_auth = opened_auth;
        in_order = v.in_order;
        lower = v.lower;
        upper = v.upper;
      })
    ]

back_off_bounds : (d : ℕ) → 1000 ≤ d → (1000 ≤ back_off d) × (back_off d ≤ 30000)
unfolding back_off
back_off_bounds d h = ground arith

pub on_timer-IsSound : (t : ℕ) (c : Client) → IsSound c → IsSound (on_timer t c)
unfolding on_timer
on_timer-IsSound t c v = elim (Bool-cases (has_timer t c.timers)) [
  | inr e ↦ rw (e, on_timer) v
  | inl e ↦
      let (low, high) = back_off_bounds c.reconnect_delay v.lower in
      rw (e, on_timer)
        (connect-IsSound _ (record {
          opened_auth = v.opened_auth;
          in_order = v.in_order;
          lower = low;
          upper = high;
        }))
]

pub disconnect-IsSound : (c : Client) → IsSound c → IsSound (disconnect c)
unfolding disconnect
disconnect-IsSound c v = record {
  opened_auth = λ k same o. cc same;
  in_order = v.in_order;
  lower = v.lower;
  upper = v.upper;
}

pub listen-IsSound : (event : Str) (h : ℕ) (c : Client) → IsSound c → IsSound (on event h c)
unfolding on
listen-IsSound event h c v = record {
  opened_auth = v.opened_auth;
  in_order = v.in_order;
  lower = v.lower;
  upper = v.upper;
}

pub off-IsSound : (event : Str) (h : ℕ) (c : Client) → IsSound c → IsSound (off event h c)
unfolding off
off-IsSound event h c v = elim (Option-cases (Dict.get event c.handlers)) [
  | inl e ↦ rw (e, off) v
  | inr (hs, e) ↦
      rw (e, off)
        (record {
          opened_auth = v.opened_auth;
          in_order = v.in_order;
          lower = v.lower;
          upper = v.upper;
        })
]
