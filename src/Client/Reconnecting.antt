-- ===== src/Client/Reconnecting.antt =====
-- How a client comes back after a lost connection, and after `disconnect`.
use native.Mathlib.Nat.{pow-suc, mul_assoc, mul_comm, mul-suc}
use winkd.Prelude.{
  ℕ, zero, suc, ◌+◌, ◌*◌, ◌^◌, ◌≤◌, ◌≡◌, refl, ap, ◌∙◌, true, false, none, some, List, [], ◌∷◌, ltb,
  ◌==◌, if◌then◌else◌, length, length-append, arith, Bool-cases, inl, inr,
}
use winkd.Connections.{
  connecting, closed, set, close, is_opened, length-set, length-close, closed_is_shut,
}
use winkd.Client.{
  Client, connect, on_close, schedule_reconnect, disconnect, has_timer, on_timer, clear_timer,
  back_off,
}

has_timer_self : (t : ℕ) (ts : List ℕ) → has_timer t (t ∷ ts) ≡ true
unfolding has_timer
has_timer_self t ts = ground arith

-- Connection k closes, and the timer that its close event is to set fires, if it was set.
unfoldable pub attempt : ℕ → ℕ → Client → Client
attempt k code c = on_timer c.next_timer (on_close k code c)

-- A number of attempts, each of which is lost: its connection closes too.
unfoldable pub attempts : ℕ → ℕ → ℕ → Client → Client
attempts zero k code c = c
attempts (suc n) k code c = attempts n (length c.connections) code (attempt k code c)

attempt_lem :
    (k code : ℕ) (c : Client)
    → c.ws ≡ some k
    → (code == 4001) ≡ false
    → ((attempt k code c).ws ≡ some (length c.connections))
      × (length (attempt k code c).connections ≡ suc (length c.connections))
      × ((attempt k code c).reconnect_delay ≡ back_off c.reconnect_delay)
unfolding attempt on_timer on_close schedule_reconnect connect
attempt_lem k code c at other =
    rw (other, has_timer_self c.next_timer c.timers, at, closed_is_shut k c.connections)
      (
        ap some (length-set k closed c.connections),
        omega (
          arith,
          length-append (set k closed c.connections) (connecting ∷ []),
          length-set k closed c.connections,
        ),
        refl,
      )

-- The delay after n attempts that start from d.
unfoldable pub delay_after : ℕ → ℕ → ℕ
delay_after zero d = d
delay_after (suc n) d = delay_after n (back_off d)

times_big : (x p : ℕ) → 30000 ≤ x → 1 ≤ p → 30000 ≤ x * p
times_big x zero big pos = absurd (omega arith)
times_big x (suc p) big pos = omega (arith, mul-suc x p)

-- At most thirty seconds.
abbrev pub capped : ℕ → ℕ
capped n = if ltb n 30000 then n else 30000

capped-back_off : (d p q : ℕ) → 1 ≤ p → q ≡ d * 2 * p → capped (back_off d * p) ≡ capped q
unfolding back_off
capped-back_off d p q pos e = elim (Bool-cases (ltb (d * 2) 30000)) [
  | inl low ↦ rw (low, e) refl
  | inr high ↦
      rw high (
        ground (arith, times_big 30000 p (omega arith) pos, times_big (d * 2) p (ground arith) pos))
]

pow_pos : (n : ℕ) → 1 ≤ 2 ^ n
pow_pos zero = omega arith
pow_pos (suc n) = omega (arith, pow-suc 2 n, pow_pos n)

back_off-le : (d : ℕ) → back_off d ≤ 30000
unfolding back_off
back_off-le d = ground arith

power_step : (d n : ℕ) → d * 2 ^ suc n ≡ d * 2 * 2 ^ n
power_step d n = rw (pow-suc 2 n, mul_assoc d 2 (2 ^ n), mul_comm 2 (2 ^ n)) refl

delay_after_lem : (n d : ℕ) → d ≤ 30000 → delay_after n d ≡ capped (d * 2 ^ n)
unfolding delay_after
delay_after_lem zero d h = ground arith
delay_after_lem (suc n) d h =
    delay_after_lem n (back_off d) (back_off-le d)
    ∙ capped-back_off d (2 ^ n) (d * 2 ^ suc n) (pow_pos n) (power_step d n)

count :
    (n k code : ℕ) (c : Client)
    → c.ws ≡ some k
    → (code == 4001) ≡ false
    → (length (attempts n k code c).connections ≡ n + length c.connections)
      × ((attempts n k code c).reconnect_delay ≡ delay_after n c.reconnect_delay)
unfolding attempts delay_after
count zero k code c at other = (omega arith, refl)
count (suc n) k code c at other =
    let (newest, made, slower) = attempt_lem k code c at other in
    let (total, delay) = count n (length c.connections) code (attempt k code c) newest other in
    (omega (arith, total, made), delay ∙ ap (λ d. delay_after n d) slower)

-- From a connection k, open or lost, any number of attempts in a row: a close event, and the firing
-- of the timer that it is to set, if that was set. Each makes one more connection, and the delay that
-- is reached is the old one doubled for each of them, up to thirty seconds. The close code is not
-- 4001.
pub attempts_lem :
    (n k code : ℕ) (c : Client)
    → c.ws ≡ some k
    → (code == 4001) ≡ false
    → c.reconnect_delay ≤ 30000
    → (length (attempts n k code c).connections ≡ n + length c.connections)
      × ((attempts n k code c).reconnect_delay ≡ capped (c.reconnect_delay * 2 ^ n))
attempts_lem n k code c at other low =
    let (e, f) = count n k code c at other in (e, f ∙ delay_after_lem n c.reconnect_delay low)

-- After `disconnect` of a client with a connection k, the close event of k still sets a timer, and
-- when that fires the client makes a new connection, unless the close code is 4001.
pub attempt-disconnect :
    (k code : ℕ) (c : Client)
    → c.ws ≡ some k
    → (code == 4001) ≡ false
    → ((disconnect c).ws ≡ none)
      × ((on_close k code (disconnect c)).timers ≡ c.next_timer ∷ (disconnect c).timers)
      × ((attempt k code (disconnect c)).ws ≡ some (length c.connections))
unfolding disconnect attempt on_timer on_close schedule_reconnect connect is_opened
attempt-disconnect k code c at other = (
  refl,
  rw other refl,
  rw (other, has_timer_self c.next_timer (clear_timer c.reconnect_timer c.timers), at)
      (ap some (length-set k closed (close k c.connections) ∙ length-close k c.connections)),
)
