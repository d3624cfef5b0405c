-- ===== src/Supabase/Realtime/Heartbeat.antt =====
-- When the heartbeat loop closes a connection.
use proxmoxvue_agent.Base.{◌+◌, ◌≤◌, ◌≡◌, ◌↔◌, true, false, List, [], ◌∷◌, arith, if-split}
use proxmoxvue_agent.Supabase.Realtime.{Watch, Beat, beat, watch, start, tick, ack}

IsFresh : Watch → Type 0
IsFresh s = s.is_closed ≡ false → s.sent ≤ s.acked + 1

beat-IsFresh : (s : Watch) (b : Beat) → IsFresh s → IsFresh (beat s b)
unfolding beat IsFresh
beat-IsFresh s tick h =
    if-split (λ (s' : Watch). IsFresh s') s.is_closed (λ closed. h) (λ still. ground arith)
beat-IsFresh s ack h = λ still. omega (arith, h still)

watch-IsFresh : (s : Watch) (bs : List Beat) → IsFresh s → IsFresh (watch s bs)
unfolding watch
watch-IsFresh s [] h = h
watch-IsFresh s (b ∷ bs) h = watch-IsFresh (beat s b) bs (beat-IsFresh s b h)

-- Whatever the beats so far, on a connection that is still open at most one heartbeat has no answer,
-- and the next tick closes the connection exactly if there is such a one: a single answer that is
-- late by one interval is enough.
pub watch-closes :
    (bs : List Beat)
    → let s = watch start bs in
      s.is_closed ≡ false
      → (s.sent ≤ s.acked + 1) × (((beat s tick).is_closed ≡ true) ↔ (s.sent ≡ s.acked + 1))
unfolding beat IsFresh
watch-closes bs h =
    let s = watch start bs in
    let fresh : s.sent ≤ s.acked + 1 = watch-IsFresh start bs (λ open_. omega arith) h in
    (
      ground (arith, fresh),
      if-split (λ (s' : Watch). (s'.is_closed ≡ true) ↔ (s.sent ≡ s.acked + 1)) s.is_closed
          (λ closed. absurd (ground arith)) (λ still. ground (arith, fresh)),
    )
