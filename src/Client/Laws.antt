-- ===== src/Client/Laws.antt =====
-- What a client sends, and how long it waits, in every state that it reaches.
use winkd.Prelude.{ℕ, ◌≤◌, ◌≡◌, Option, some, Str, get_elem?, arith, str_eq_instance}
use winkd.Json.{Members}
use winkd.Connections.{connecting, is_opened, AuthFirst}
use winkd.Client.{
  Client, fresh_client, connect, on_open, on_message, on_close, disconnect, send, on, off, on_timer,
}
use winkd.Client.Sound.{
  IsSound, connect-IsSound, on_open-IsSound, send-IsSound, on_message-IsSound, on_close-IsSound,
  on_timer-IsSound, disconnect-IsSound, listen-IsSound, off-IsSound,
}

-- The states that calls of the methods and the browser's events reach. A connection opens once,
-- while it is connecting.
pub data Reached (token : Str) : Client → Type 0 where
  constructed : Reached token (fresh_client token)
  connects : {c : Client} → Reached token c → Reached token (connect c)
  opens :
      (k : ℕ) {c : Client}
      → get_elem? c.connections k ≡ some connecting
      → Reached token c
      → Reached token (on_open k c)
  receives :
      (members : Option Members) {c : Client}
      → Reached token c
      → Reached token (on_message members c).0
  closes : (k code : ℕ) {c : Client} → Reached token c → Reached token (on_close k code c)
  fires : (t : ℕ) {c : Client} → Reached token c → Reached token (on_timer t c)
  disconnects : {c : Client} → Reached token c → Reached token (disconnect c)
  sends : (text : Str) {c : Client} → Reached token c → Reached token (send text c)
  listens : (event : Str) (h : ℕ) {c : Client} → Reached token c → Reached token (on event h c)
  leaves : (event : Str) (h : ℕ) {c : Client} → Reached token c → Reached token (off event h c)

Reached-IsSound : {token : Str} {c : Client} → Reached token c → IsSound c
unfolding is_opened
Reached-IsSound Reached.constructed = record {
  opened_auth = λ k same o. cc;
  in_order = tt;
  lower = omega arith;
  upper = omega arith;
}
Reached-IsSound (Reached.connects {c} r) = connect-IsSound c (Reached-IsSound r)
Reached-IsSound (Reached.opens k {c} e r) = on_open-IsSound k c (Reached-IsSound r)
Reached-IsSound (Reached.receives ms {c} r) = on_message-IsSound ms c (Reached-IsSound r)
Reached-IsSound (Reached.closes k code {c} r) = on_close-IsSound k code c (Reached-IsSound r)
Reached-IsSound (Reached.fires t {c} r) = on_timer-IsSound t c (Reached-IsSound r)
Reached-IsSound (Reached.disconnects {c} r) = disconnect-IsSound c (Reached-IsSound r)
Reached-IsSound (Reached.sends text {c} r) = send-IsSound text c (Reached-IsSound r)
Reached-IsSound (Reached.listens event h {c} r) = listen-IsSound event h c (Reached-IsSound r)
Reached-IsSound (Reached.leaves event h {c} r) = off-IsSound event h c (Reached-IsSound r)

-- Whatever the methods and the browser's events do: on each connection the token was sent before any
-- command, and the delay before the next attempt is between one and thirty seconds.
pub Reached_lem :
    {token : Str} {c : Client}
    → Reached token c
    → AuthFirst c.sent × (1000 ≤ c.reconnect_delay) × (c.reconnect_delay ≤ 30000)
Reached_lem r = let v = Reached-IsSound r in (v.in_order, v.lower, v.upper)
