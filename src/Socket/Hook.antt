-- ===== src/Socket/Hook.antt =====
-- The life of the connections of `useSocket` in apps/web/src/hooks/useSocket.ts: the effect that
-- opens one, its clean-up, the handlers of a connection, and `send`.
pub mod Laws
pub mod Stale
use winkd.Prelude.{
  ℕ, Bool, true, false, Option, none, some, List, [], ◌∷◌, ◌++◌, Str, ◌==◌, if◌then◌else◌,
  get_elem?, length,
}
use winkd.Connections.{
  ReadyState, connecting, opened, closed, Outgoing, auth, payload, Log, set, close, is_opened,
}
use winkd.Auth.{AuthState, SignedIn, logout}
use winkd.Socket.{Captured}

-- `ws_ref` is `wsRef.current`. The connections by number, and what the handlers of each captured.
pub record Hook : Type 0 where
  pub ws_ref : Option ℕ
  pub connections : List ReadyState
  pub captured : List Captured
  pub sent : Log

abbrev pub unmounted : Hook
unmounted = record { ws_ref = none; connections = []; captured = []; sent = [] }

-- What the closures of one run of the effect see.
abbrev pub captured_by : SignedIn → Option Str → Captured
captured_by session active = record {
  token = session.token;
  own_winkd_id = session.profile.winkd_id;
  active_conversation_id = active;
}

-- The effect runs.
unfoldable pub start : AuthState → Option Str → Hook → Hook
start none active h = h
start (some session) active h = record h {
  ws_ref = some (length h.connections);
  connections = h.connections ++ connecting ∷ [];
  captured = h.captured ++ captured_by session active ∷ [];
}

-- The clean-up of the effect that opened connection k.
unfoldable pub clean_up : ℕ → Hook → Hook
clean_up k h = record h { ws_ref = none; connections = close k h.connections }

-- `onopen`
unfoldable pub on_open : ℕ → Hook → Hook
on_open k h = elim (get_elem? h.captured k) [
  | none ↦ h
  | some c ↦ record h {
    connections = set k opened h.connections;
    sent = (k, auth c.token) ∷ h.sent;
  }
]

-- `onclose`, with the close code
unfoldable pub on_close : ℕ → ℕ → Hook × AuthState → Hook × AuthState
on_close k code (h, session) = (
  record h { ws_ref = none; connections = set k closed h.connections },
  if code == 4001 then logout session else session,
)

-- `onerror`
unfoldable pub on_error : Hook → Hook
on_error h = record h { ws_ref = none }

-- `send`
unfoldable pub send : Str → Hook → Hook
send text h = elim h.ws_ref [
  | none ↦ h
  | some k ↦
      if is_opened (get_elem? h.connections k)
      then record h { sent = (k, payload text) ∷ h.sent }
      else h
]
