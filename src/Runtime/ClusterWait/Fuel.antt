-- ===== src/Runtime/ClusterWait/Fuel.antt =====
-- What the wait for the cluster does on the wire, and how it ends.
use proxmoxvue_agent.Base.{
  ℕ, zero, suc, ◌+◌, ◌≡◌, refl, true, false, Option, none, some, [], ◌∷◌, arith, ltb, if-split,
}
use proxmoxvue_agent.Base.Program.{ret}
use proxmoxvue_agent.Base.Int.{ℤ}
use proxmoxvue_agent.Base.Failure.{Failure}
use proxmoxvue_agent.Base.Ledger.{Ends, Ends-mono, spent}
use proxmoxvue_agent.Proxmox.Client.{Exchange}
use proxmoxvue_agent.Proxmox.Cluster.{resources_request}
use proxmoxvue_agent.Proxmox.Tasks.{now, send, pause}
use proxmoxvue_agent.Proxmox.Tasks.Wait.{Events, pauses}
use proxmoxvue_agent.Commands.Calls.{Command}
use proxmoxvue_agent.Commands.Payload.{
  StateExpectation, GuestRef, expected_state_for, parse_guest_ref,
}
use proxmoxvue_agent.Runtime.ClusterWait.{
  Outcome, nothing_to_wait_for, matched, timed_out, cancelled, Wait, shows, after_pause,
  after_answer, after_clock, poll, wait_for, wait_for_cluster_state_match,
}

module _ (vmid : ℤ) (e : StateExpectation) where
  -- The events of a wait that goes on: the clock is read for the deadline, and then in each poll the clock,
  -- which is before the deadline, and the resources of the cluster, which do not show the guest in the
  -- expected state; a pause follows.
  pub data Polled (deadline : ℕ) : Events → Type 0 where
    begun : (start : ℕ) → deadline ≡ start + e.timeout → Polled deadline ((now, start) ∷ [])
    missed :
        {t : Events} (time : ℕ) (x : Exchange)
        → Polled deadline t
        → ltb time deadline ≡ true
        → shows vmid e.expected x ≡ false
        → Polled deadline ((pause, none) ∷ (send resources_request, x) ∷ (now, time) ∷ t)

  -- How such a wait ends.
  pub data WaitEnded (fuel deadline : ℕ) : Option Outcome → Events → Type 0 where
    -- The last answer shows the guest in the expected state.
    state_shown :
        {t : Events} (time : ℕ) (x : Exchange)
        → Polled deadline t
        → ltb time deadline ≡ true
        → shows vmid e.expected x ≡ true
        → WaitEnded fuel deadline (some matched) ((send resources_request, x) ∷ (now, time) ∷ t)
    -- The clock has reached the deadline.
    too_late :
        {t : Events} (time : ℕ)
        → Polled deadline t
        → ltb time deadline ≡ false
        → WaitEnded fuel deadline (some timed_out) ((now, time) ∷ t)
    -- The context is done.
    stopped :
        {t : Events} (time : ℕ) (x : Exchange) (failure : Failure)
        → Polled deadline t
        → ltb time deadline ≡ true
        → shows vmid e.expected x ≡ false
        → WaitEnded fuel deadline
            (some cancelled)
            ((pause, some failure) ∷ (send resources_request, x) ∷ (now, time) ∷ t)
    no_fuel :
        {t : Events} → Polled deadline t → spent pauses t ≡ fuel → WaitEnded fuel deadline none t

  module _ (fuel deadline : ℕ) where
    after_pause-Ends :
        {t : Events} (time : ℕ) (x : Exchange) (rest : Wait) (stop : Option Failure)
        → Polled deadline t
        → ltb time deadline ≡ true
        → shows vmid e.expected x ≡ false
        → let t' : Events = (send resources_request, x) ∷ (now, time) ∷ t in
          Ends (WaitEnded fuel deadline) ((pause, none) ∷ t') rest
          → Ends
              (WaitEnded fuel deadline)
              ((pause, stop) ∷ t')
              (after_pause vmid e.expected deadline rest stop)
    unfolding after_pause
    after_pause-Ends time x rest none so_far early hidden go = go
    after_pause-Ends time x rest (some failure) so_far early hidden go =
        stopped time x failure so_far early hidden

    poll-Ends :
        (n : ℕ) (t : Events)
        → Polled deadline t
        → spent pauses t + n ≡ fuel
        → Ends (WaitEnded fuel deadline) t (poll vmid e.expected deadline n)
    unfolding poll after_clock after_answer
    poll-Ends zero t so_far h = no_fuel so_far (omega arith)
    poll-Ends (suc n) t so_far h = λ time.
        if-split (Ends (WaitEnded fuel deadline) ((now, time) ∷ t)) (ltb time deadline)
          (λ early x.
            let t' : Events = (send resources_request, x) ∷ (now, time) ∷ t in
            if-split (Ends (WaitEnded fuel deadline) t') (shows vmid e.expected x)
              (state_shown time x so_far early)
              λ hidden stop.
                after_pause-Ends time x (poll vmid e.expected deadline n) stop so_far early hidden (
                  poll-Ends n ((pause, none) ∷ t') (missed time x so_far early hidden)
                    (omega arith)))
          (too_late time so_far)

-- What the wait behind a command does: there is nothing to wait for only where its kind leads to no state
-- that is known or its payload names no guest, and then nothing is done; otherwise it polls for that guest
-- and that state.
pub data Settled (cmd : Command) (fuel : ℕ) : Option Outcome → Events → Type 0 where
  no_state : expected_state_for cmd.kind ≡ none → Settled cmd fuel (some nothing_to_wait_for) []
  no_guest : parse_guest_ref cmd.payload ≡ none → Settled cmd fuel (some nothing_to_wait_for) []
  waits :
      {o : Option Outcome} {t : Events} (e : StateExpectation) (guest : GuestRef) (deadline : ℕ)
      → expected_state_for cmd.kind ≡ some e
      → parse_guest_ref cmd.payload ≡ some guest
      → WaitEnded guest.vmid e fuel deadline o t
      → Settled cmd fuel o t

-- Out of fuel, the wait has paused this often.
pub Settled-spent :
    (cmd : Command) (fuel : ℕ) {o : Option Outcome} {t : Events}
    → Settled cmd fuel o t
    → o ≡ none
    → spent pauses t ≡ fuel
Settled-spent cmd fuel (no_state h) same = absurd (ground arith)
Settled-spent cmd fuel (no_guest h) same = absurd (ground arith)
Settled-spent cmd fuel (waits e guest deadline has_state has_guest ended) same = last ended same
  where
    last :
        {o : Option Outcome} {t : Events}
        → WaitEnded guest.vmid e fuel deadline o t
        → o ≡ none
        → spent pauses t ≡ fuel
    last (no_fuel so_far h) same = h
    last (state_shown time x so_far early shown) same = absurd (ground arith)
    last (too_late time so_far late) same = absurd (ground arith)
    last (stopped time x failure so_far early hidden) same = absurd (ground arith)

pub wait_for_cluster_state_match-Settled :
    (cmd : Command) (fuel : ℕ) → Ends (Settled cmd fuel) [] (wait_for_cluster_state_match cmd fuel)
unfolding wait_for_cluster_state_match wait_for
wait_for_cluster_state_match-Settled cmd fuel = kind (expected_state_for cmd.kind) refl
  where
    guest :
        (e : StateExpectation) (g : Option GuestRef)
        → expected_state_for cmd.kind ≡ some e
        → parse_guest_ref cmd.payload ≡ g
        → Ends
            (Settled cmd fuel)
            []
            (elim g [ none ↦ ret (some nothing_to_wait_for) | some g ↦ wait_for g.vmid e fuel ])
    guest e none has_state has_guest = no_guest has_guest
    guest e (some g) has_state has_guest = λ start.
        Ends-mono (WaitEnded g.vmid e fuel (start + e.timeout)) (Settled cmd fuel)
          ((now, start) ∷ []) (poll g.vmid e.expected (start + e.timeout) fuel)
          (λ o t h. waits e g (start + e.timeout) has_state has_guest h)
          (poll-Ends g.vmid e fuel (start + e.timeout) fuel ((now, start) ∷ []) (begun start refl)
            (omega arith))

    kind :
        (o : Option StateExpectation)
        → expected_state_for cmd.kind ≡ o
        → Ends (Settled cmd fuel) [] (elim o [
          | none ↦ ret (some nothing_to_wait_for)
          | some e ↦ elim (parse_guest_ref cmd.payload) [
            | none ↦ ret (some nothing_to_wait_for)
            | some g ↦ wait_for g.vmid e fuel
          ]
        ])
    kind none has_state = no_state has_state
    kind (some e) has_state = guest e (parse_guest_ref cmd.payload) has_state refl
