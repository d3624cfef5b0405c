-- ===== src/Supabase/Realtime.antt =====
-- internal/supabase/realtime.go: the waits between two connections, and the watch over heartbeats.
pub mod Reconnect
pub mod Heartbeat
pub mod Frame
pub mod Subscribe
mod Tests
use proxmoxvue_agent.Base.{
  ℕ, zero, suc, ◌+◌, ◌-◌, ◌*◌, ◌/◌, ◌%◌, ◌^◌, ◌≤◌, ◌<◌, ◌≡◌, ◌≢◌, refl, sym, ap, ◌∙◌, ◌↔◌, ◌⊎◌, inl,
  inr, Bool, true, false, not, ◌&&◌, ◌||◌, Option, none, some, List, [], ◌∷◌, ◌++◌, map, append-nil,
  append_assoc, arith, ltb, leb, ◌==◌, if◌then◌else◌, ==_iff, Bool-cases, Option-cases, &&-true,
  ||-true, length, take, drop, all, any, All, Bytes, codes, str_eq, str_eq_iff, str_eq→eq,
  str_eq_refl, is_empty, format_nat, if-cases, if-split,
}
use proxmoxvue_agent.Commands.Payload.{second}

-- runSubscription: the backoff with which the loop starts, and the one behind a wait, in nanoseconds
abbrev pub first_backoff : ℕ
first_backoff = second

unfoldable pub next_backoff : ℕ → ℕ
next_backoff backoff = if ltb backoff (30 * second) then backoff * 2 else backoff

-- The backoff of the attempt with this number, counted from zero.
unfoldable pub backoff_of : ℕ → ℕ
unfolding next_backoff
backoff_of zero = first_backoff
backoff_of (suc n) = next_backoff (backoff_of n)

-- backoff + jitter, where `random` is what rand.Int64N(backoff/2) returns
unfoldable pub wait_of : ℕ → ℕ → ℕ
wait_of backoff random = backoff + random - backoff / 4

-- hbSent, hbAcked, and whether the heartbeat loop has closed the connection
pub record Watch : Type 0 where
  pub sent : ℕ
  pub acked : ℕ
  pub is_closed : Bool

abbrev pub start : Watch
start = record { sent = 0; acked = 0; is_closed = false }

-- What happens to the counters: a tick of the loop whose write succeeds, and an answer to a heartbeat.
pub data Beat : Type 0 where
  tick : Beat
  ack : Beat

-- ackLagThreshold
abbrev pub ack_lag_threshold : ℕ
ack_lag_threshold = 2

-- A closed loop has returned.
unfoldable pub beat : Watch → Beat → Watch
beat s tick = if s.is_closed then s else record {
  sent = s.sent + 1;
  acked = s.acked;
  is_closed = leb (s.acked + ack_lag_threshold) (s.sent + 1);
}
beat s ack = record { sent = s.sent; acked = s.acked + 1; is_closed = s.is_closed }

-- The counters behind a sequence of beats.
unfoldable pub watch : Watch → List Beat → Watch
unfolding beat
watch s [] = s
watch s (b ∷ bs) = watch (beat s b) bs
