-- ===== src/Tests/Client.antt =====
-- Concrete clients of the protocol.
use winkd.Prelude.{◌+◌, ◌*◌, ◌^◌, ◌≤◌, ◌≡◌, refl, none, some, ◌∷◌, lit, arith, length}
use winkd.Json.{Json, Members}
use winkd.Connections.{AuthFirst, is_opened}
use winkd.Client.{Client, fresh_client, connect, on_open, on_message, send, on_close, disconnect}
use winkd.Client.Laws.{Reached, Reached_lem}
use winkd.Client.Reconnecting.{attempt, attempts, attempts_lem, attempt-disconnect, capped}

abbrev auth_ok : Members
auth_ok = Members.member (lit "type") (Json.text (lit "auth_ok")) Members.empty

abbrev connecting_client : Client
connecting_client = connect (fresh_client (lit "t1"))

abbrev client : Client
client = send (lit "{}") (on_message (some auth_ok) (on_open 0 connecting_client)).0

client-Reached : Reached (lit "t1") client
unfolding connect is_opened
client-Reached =
    Reached.sends (lit "{}") (
      Reached.receives (some auth_ok) (Reached.opens 0 refl (Reached.connects Reached.constructed)))

Reached_example :
    AuthFirst client.sent × (1000 ≤ client.reconnect_delay) × (client.reconnect_delay ≤ 30000)
Reached_example = Reached_lem client-Reached

attempts_example :
    (length (attempts 7 0 1006 connecting_client).connections
      ≡ 7 + length connecting_client.connections)
    × ((attempts 7 0 1006 connecting_client).reconnect_delay
        ≡ capped (connecting_client.reconnect_delay * 2 ^ 7))
unfolding connect is_opened
attempts_example = attempts_lem 7 0 1006 connecting_client refl refl (omega arith)

attempt-disconnect_example :
    ((disconnect connecting_client).ws ≡ none)
    × ((on_close 0 1000 (disconnect connecting_client)).timers
        ≡ connecting_client.next_timer ∷ (disconnect connecting_client).timers)
    × ((attempt 0 1000 (disconnect connecting_client)).ws
        ≡ some (length connecting_client.connections))
unfolding connect is_opened
attempt-disconnect_example = attempt-disconnect 0 1000 connecting_client refl refl
