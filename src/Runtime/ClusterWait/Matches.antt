-- ===== src/Runtime/ClusterWait/Matches.antt =====
-- When the wait for the cluster ends.
use proxmoxvue_agent.Base.{
  ℕ, zero, suc, ◌+◌, ◌*◌, ◌≤◌, ◌<◌, ◌≡◌, refl, inl, inr, true, false, Option, none, some, [], ◌∷◌,
  arith, ltb, Bool-cases, Bytes, if-split,
}
use proxmoxvue_agent.Base.Program.{World, run}
use proxmoxvue_agent.Base.Int.{ℤ}
use proxmoxvue_agent.Base.Failure.{Failure}
use proxmoxvue_agent.Base.Ledger.{spent}
use proxmoxvue_agent.Proxmox.Cluster.{resources_request}
use proxmoxvue_agent.Proxmox.Tasks.{Call, Reply, now, send, pause, poll_interval}
use proxmoxvue_agent.Proxmox.Tasks.Wait.{Events, pauses, IsPaced}
use proxmoxvue_agent.Runtime.ClusterWait.{
  Outcome, matched, timed_out, cancelled, Wait, shows, after_pause, after_answer, after_clock, poll,
  wait_for,
}

module _ (vmid : ℤ) (expected : Bytes) where
  -- From the poll behind so many pauses on, the cluster shows the guest in the expected state.
  abbrev pub Settles : World Call Reply → ℕ → Type 0
  Settles w k =
      (past : Events)
      → k ≤ spent pauses past
      → shows vmid expected (w past (send resources_request)) ≡ true

  -- The clock is before the deadline as long as there were no more pauses than that.
  abbrev pub InTime : World Call Reply → ℕ → ℕ → Type 0
  InTime w deadline k = (past : Events) → spent pauses past ≤ k → w past now < deadline

  abbrev pub Undisturbed : World Call Reply → Type 0
  Undisturbed w = (past : Events) → w past pause ≡ none

  module _ (w : World Call Reply) (deadline k : ℕ) (settles : Settles w k)
      (quick : InTime w deadline k) (calm : Undisturbed w) where
    abbrev Matched : Events → Wait → Type 0
    Matched past p = (run w past p).0 ≡ some matched

    after_pause-Matched :
        (t : Events) (rest : Wait) (stop : Option Failure)
        → stop ≡ none
        → Matched t rest
        → Matched t (after_pause vmid expected deadline rest stop)
    unfolding after_pause
    after_pause-Matched t rest none h go = go
    after_pause-Matched t rest (some e) h go = absurd (ground arith)

    poll-Matched :
        (n : ℕ) (past : Events)
        → spent pauses past ≤ k
        → k < spent pauses past + n
        → Matched past (poll vmid expected deadline n)
    unfolding poll after_clock after_answer
    poll-Matched zero past few enough = absurd (omega (arith, few, enough))
    poll-Matched (suc n) past few enough =
        let time = w past now in
        let t : Events = (now, time) ∷ past in
        let x = w t (send resources_request) in
        let t' : Events = (send resources_request, x) ∷ t in
        let early = quick past few in
        if-split (Matched t) (ltb time deadline)
          (λ before.
            if-split (Matched t') (shows vmid expected x) (λ shown. refl)
              λ hidden.
                let later : spent pauses past < k = omega (arith, behind t hidden) in
                let stop = w t' pause in
                after_pause-Matched ((pause, stop) ∷ t') (poll vmid expected deadline n) stop
                  (calm t') (poll-Matched n ((pause, stop) ∷ t') (omega arith) (omega arith)))
          (λ late. absurd (ground (arith, early)))
      where
        behind :
            (t : Events)
            → shows vmid expected (w t (send resources_request)) ≡ false
            → spent pauses t < k
        behind t hidden = elim (Bool-cases (ltb (spent pauses t) k)) [
          | inl less ↦ ground arith
          | inr not_less ↦ let shown = settles t (ground arith) in absurd (ground arith)
        ]

  -- Where the cluster shows the guest in the expected state from some poll on, that poll comes before
  -- the deadline, nothing cancels the wait, and there is fuel for it, the wait comes to an end with a
  -- match, so that the snapshot pushed behind it can show what the command has done.
  pub wait_for-matches :
      (w : World Call Reply) (timeout k fuel : ℕ)
      → Settles w k
      → InTime w (w [] now + timeout) k
      → Undisturbed w
      → k < fuel
      → (run w [] (wait_for vmid (record { expected = expected; timeout = timeout }) fuel)).0
        ≡ some matched
  unfolding wait_for
  wait_for-matches w timeout k fuel settles quick calm enough =
      poll-Matched w (w [] now + timeout) k settles quick calm fuel ((now, w [] now) ∷ [])
        (omega arith) (omega arith)

  abbrev Ended : World Call Reply → Events → Wait → Type 0
  Ended w past p = (r : Outcome) × ((run w past p).0 ≡ some r)

  module _ (w : World Call Reply) (timeout : ℕ) (paced : IsPaced w) where
    abbrev limit : ℕ
    limit = w [] now + timeout

    after_pause-Ended :
        (t : Events) (rest : Wait) (stop : Option Failure)
        → Ended w t rest
        → Ended w t (after_pause vmid expected limit rest stop)
    unfolding after_pause
    after_pause-Ended t rest none h = h
    after_pause-Ended t rest (some e) h = (cancelled, refl)

    poll-Ended :
        (n : ℕ) (past : Events)
        → timeout + poll_interval ≤ poll_interval * (spent pauses past + n)
        → 0 < n
        → Ended w past (poll vmid expected limit n)
    unfolding poll after_clock after_answer
    poll-Ended zero past enough some_fuel = absurd (omega (arith, some_fuel))
    poll-Ended (suc n) past enough some_fuel =
        let time = w past now in
        let t : Events = (now, time) ∷ past in
        let x = w t (send resources_request) in
        let t' : Events = (send resources_request, x) ∷ t in
        if-split (Ended w t) (ltb time limit)
          (λ before.
            if-split (Ended w t') (shows vmid expected x) (λ shown. (matched, refl))
              λ hidden.
                let stop = w t' pause in
                after_pause-Ended ((pause, stop) ∷ t') (poll vmid expected limit n) stop
                  (poll-Ended n ((pause, stop) ∷ t') (omega arith) (left before)))
          (λ late. (timed_out, refl))
      where
        left : ltb (w past now) limit ≡ true → 0 < n
        left before = ground (arith, paced past)

  -- In a world in which time passes at least as fast as the agent sleeps, the wait ends once the fuel
  -- times the interval of polling is the timeout and one interval at least.
  pub wait_for-ends :
      (w : World Call Reply)
      → IsPaced w
      → (timeout fuel : ℕ) → timeout + poll_interval ≤ poll_interval * fuel
      → (r : Outcome) × ((run w []
            (wait_for vmid (record { expected = expected; timeout = timeout }) fuel)).0
          ≡ some r)
  unfolding wait_for
  wait_for-ends w paced timeout fuel enough =
      poll-Ended w timeout paced fuel ((now, w [] now) ∷ []) (omega arith) (omega (arith, enough))
