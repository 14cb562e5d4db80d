-- ===== src/Client.antt =====
-- `WinkdClient` of packages/core/src/protocol/client.ts. The handlers that are registered stand for
-- themselves by number; while one runs, none is added or removed.
pub mod Sound
pub mod Laws
pub mod Reconnecting
use winkd.Prelude.{
  ℕ, suc, ◌*◌, Bool, true, false, not, ◌&&◌, ◌||◌, Option, none, some, List, [], ◌∷◌, ◌++◌, Str,
  lit, str_eq, str_eq_instance, ltb, ◌==◌, if◌then◌else◌, get_elem?, length,
}
use winkd.Prelude.Dict
use winkd.Prelude.Dict.{Dict}
use winkd.Json.{Members, get, text_of}
use winkd.Connections.{
  ReadyState, connecting, opened, closing, closed, Outgoing, auth, payload, Log, set, close,
  is_opened,
}

-- `connections`, `timers` and `sent` belong to the browser: the connections by number, the timers
-- that have not fired or been cleared, and what was sent. `auth_failures` counts the calls of
-- `onAuthFailure`.
pub record Client : Type 0 where
  pub session_token : Str
  pub ws : Option ℕ
  pub handlers : Dict Str (List ℕ)
  pub reconnect_timer : Option ℕ
  pub reconnect_delay : ℕ
  pub authenticated : Bool
  pub connections : List ReadyState
  pub timers : List ℕ
  pub next_timer : ℕ
  pub sent : Log
  pub auth_failures : ℕ

abbrev pub fresh_client : Str → Client
fresh_client token = record {
  session_token = token;
  ws = none;
  handlers = [];
  reconnect_timer = none;
  reconnect_delay = 1000;
  authenticated = false;
  connections = [];
  timers = [];
  next_timer = 1;
  sent = [];
  auth_failures = 0;
}

abbrev pub state_of : Option ℕ → List ReadyState → Option ReadyState
state_of none rs = none
state_of (some k) rs = get_elem? rs k

-- `this.ws?.readyState`
abbrev pub ws_state : Client → Option ReadyState
ws_state c = state_of c.ws c.connections

unfoldable pub connect : Client → Client
connect c = if is_opened (ws_state c) then c else record c {
  ws = some (length c.connections);
  connections = c.connections ++ connecting ∷ [];
  authenticated = false;
}

-- `ws.send` on a connection in a state: only an open one sends. It throws where there is none or it
-- is connecting, and drops the text where it is closing or closed; the handler has nothing left to do.
abbrev pub send_on : Option ℕ → Option ReadyState → Outgoing → Log → Log
send_on (some k) (some opened) o log = (k, o) ∷ log
send_on _ _ o log = log

-- `onopen` of connection k, which has opened. The token goes out on the newest connection.
unfoldable pub on_open : ℕ → Client → Client
on_open k c =
    let ready = record c { connections = set k opened c.connections; reconnect_delay = 1000 } in
    record ready { sent = send_on ready.ws (ws_state ready) (auth c.session_token) c.sent }

abbrev handlers_or_none : Option (List ℕ) → List ℕ
handlers_or_none none = []
handlers_or_none (some hs) = hs

abbrev handlers_of : Option Str → Dict Str (List ℕ) → List ℕ
handlers_of none d = []
handlers_of (some event) d = handlers_or_none (Dict.get event d)

-- `dispatch`: the handlers that are called, in order. One that throws does not stop the others.
unfoldable pub dispatch : Members → Client → List ℕ
unfolding get
dispatch members c = handlers_of (text_of (get (lit "event") members)) c.handlers

unfoldable pub is_auth_ok : Members → Bool
unfolding get
is_auth_ok members = elim (text_of (get (lit "type") members)) [
  | none ↦ false
  | some s ↦ str_eq s (lit "auth_ok")
]

-- `onmessage`, with the members of the envelope, or `none` for a text that has none to read.
unfoldable pub on_message : Option Members → Client → Client × List ℕ
on_message none c = (c, [])
on_message (some members) c =
    if c.authenticated
    then (c, dispatch members c)
    else (record c { authenticated = is_auth_ok members }, [])

unfoldable pub schedule_reconnect : Client → Client
schedule_reconnect c = record c {
  reconnect_timer = some c.next_timer;
  timers = c.next_timer ∷ c.timers;
  next_timer = suc c.next_timer;
}

-- `onclose` of connection k, with the close code.
unfoldable pub on_close : ℕ → ℕ → Client → Client
on_close k code c =
    let gone = record c { connections = set k closed c.connections; authenticated = false } in
    if code == 4001
    then record gone { auth_failures = suc c.auth_failures }
    else schedule_reconnect gone

-- The list without a number.
unfoldable pub without : ℕ → List ℕ → List ℕ
without t [] = []
without t (u ∷ us) = let rest = without t us in if u == t then rest else u ∷ rest

-- `clearTimeout` of a timer that was set: the numbers start at 1.
abbrev pub clear_timer : Option ℕ → List ℕ → List ℕ
clear_timer none ts = ts
clear_timer (some t) ts = without t ts

abbrev pub close_ws : Option ℕ → List ReadyState → List ReadyState
close_ws none rs = rs
close_ws (some k) rs = close k rs

unfoldable pub disconnect : Client → Client
disconnect c = record c {
  timers = clear_timer c.reconnect_timer c.timers;
  connections = close_ws c.ws c.connections;
  ws = none;
  authenticated = false;
}

-- `send`, with the JSON text of the command.
unfoldable pub send : Str → Client → Client
send text c =
    if c.authenticated && is_opened (ws_state c)
    then record c { sent = send_on c.ws (ws_state c) (payload text) c.sent }
    else c

-- A handler that is in the set already stays where it is.
unfoldable pub add : ℕ → List ℕ → List ℕ
add h [] = h ∷ []
add h (x ∷ xs) = let rest = add h xs in if x == h then x ∷ xs else x ∷ rest

unfoldable pub on : Str → ℕ → Client → Client
on event h c = record c {
  handlers = Dict.put event (add h (handlers_or_none (Dict.get event c.handlers))) c.handlers;
}

-- What `on` returns: it takes the handler away.
unfoldable pub off : Str → ℕ → Client → Client
off event h c = elim (Dict.get event c.handlers) [
  | none ↦ c
  | some hs ↦ record c { handlers = Dict.put event (without h hs) c.handlers }
]

unfoldable pub back_off : ℕ → ℕ
back_off delay = if ltb (delay * 2) 30000 then delay * 2 else 30000

unfoldable pub has_timer : ℕ → List ℕ → Bool
has_timer t [] = false
has_timer t (u ∷ us) = u == t || has_timer t us

-- The callback of `scheduleReconnect`. Only a timer that was set, and has not fired or been cleared,
-- can fire.
unfoldable pub on_timer : ℕ → Client → Client
on_timer t c =
    if has_timer t c.timers
    then connect
        (record c { timers = without t c.timers; reconnect_delay = back_off c.reconnect_delay })
    else c
