-- ===== src/Proxmox/Tasks/Wait.antt =====
-- The wait for a task: it ends, and what its result means.
use proxmoxvue_agent.Base.{
  ℕ, zero, suc, ◌+◌, ◌*◌, ◌≤◌, ◌<◌, ◌≡◌, refl, true, Option, none, some, List, [], ◌∷◌, arith, ltb,
  Bytes, if-cases, if-split,
}
use proxmoxvue_agent.Base.Program.{Event, World, run}
use proxmoxvue_agent.Base.Failure.{Failure, Result, ok, err}
use proxmoxvue_agent.Proxmox.Tasks.{
  Call, Reply, Task, now, send, pause, poll_interval, await, await_task_completion, after_status,
  after_clock, after_pause, task_status, status_request,
}
use proxmoxvue_agent.Commands.Calls.{TaskStatus}
use proxmoxvue_agent.Base.Ledger.{spent, Ends, run-Ends, Ends-and}
use proxmoxvue_agent.Proxmox.Client.{Exchange}

abbrev pub Events : Type 0
Events = List (Event Call Reply)

abbrev pub pauses : Call → ℕ
pauses pause = 1
pauses other = 0

-- A world in which time passes at least as fast as the agent sleeps.
abbrev pub IsPaced : World Call Reply → Type 0
IsPaced w = (past : Events) → w [] now + poll_interval * spent pauses past ≤ w past now

module _ (show : ℕ → Bytes) (node upid : Bytes) (timeout : ℕ) where
  abbrev Ended : World Call Reply → Events → Task → Type 0
  Ended w past p = (r : Result TaskStatus) × ((run w past p).0 ≡ some r)

  after_pause-Ended :
      (w : World Call Reply) (t : Events) (rest : Task) (stop : Option Failure)
      → Ended w t rest
      → Ended w t (after_pause show node upid timeout rest stop)
  unfolding after_pause
  after_pause-Ended w t rest none h = h
  after_pause-Ended w t rest (some e) h = (err e, refl)

  -- A poll ends the wait, or the rest does, behind one more pause and with the deadline ahead.
  after_status-Ended :
      (w : World Call Reply) (deadline : ℕ) (t : Events) (rest : Task) (r : Result TaskStatus)
      → ((t' : Events)
          → spent pauses t' ≡ suc (spent pauses t)
          → w t now ≤ deadline
          → Ended w t' rest)
      → Ended w t (after_status show node upid timeout deadline rest r)
  unfolding after_status after_clock
  after_status-Ended w deadline t rest (err e) later = (err e, refl)
  after_status-Ended w deadline t rest (ok st) later =
      let time = w t now in
      if-split (Ended w t) st.is_done (λ done. (ok st, refl))
        λ still.
          if-split (Ended w ((now, time) ∷ t)) (ltb deadline time) (λ late. (_, refl))
            λ early.
              let stop = w ((now, time) ∷ t) pause in
              after_pause-Ended w ((pause, stop) ∷ (now, time) ∷ t) rest stop
                (later _ (omega arith) (ground arith))

  await-Ended :
      (w : World Call Reply)
      → IsPaced w
      → (n : ℕ) (past : Events) → poll_interval * spent pauses past ≤ timeout + poll_interval
      → timeout + poll_interval < poll_interval * (spent pauses past + n)
      → Ended w past (await show node upid timeout n (w [] now + timeout))
  unfolding await
  await-Ended w paced zero past slept enough = absurd (omega (arith, slept, enough))
  await-Ended w paced (suc n) past slept enough =
      let x = w past (send (status_request node upid)) in
      let t : Events = (send (status_request node upid), x) ∷ past in
      after_status-Ended w (w [] now + timeout) t
        (await show node upid timeout n (w [] now + timeout)) (task_status x)
        λ t' more ahead. await-Ended w paced n t' (omega (arith, paced t)) (omega arith)

  -- In a world in which time passes at least as fast as the agent sleeps, the wait for a task ends:
  -- it has a result once the fuel times the interval of polling exceeds the timeout by more than one
  -- interval.
  pub await_task_completion-ends :
      (w : World Call Reply)
      → IsPaced w
      → (fuel : ℕ) → timeout + poll_interval < poll_interval * fuel
      → (r : Result TaskStatus) × ((run w [] (await_task_completion show node upid timeout fuel)).0
          ≡ some r)
  unfolding await_task_completion
  await_task_completion-ends w paced fuel enough =
      await-Ended w paced fuel ((now, w [] now) ∷ []) (omega arith) (omega arith)

  -- What a result means: of a status, that the last answer of Proxmox gave it for this task, which it
  -- reported as stopped.
  pub data Waited : Option (Result TaskStatus) → Events → Type 0 where
    out_of_fuel : {t : Events} → Waited none t
    failed : {t : Events} (e : Failure) → Waited (some (err e)) t
    stopped :
        {past : Events} (x : Exchange) (st : TaskStatus)
        → task_status x ≡ ok st
        → st.is_done ≡ true
        → Waited (some (ok st)) ((send (status_request node upid), x) ∷ past)

  after_status-Waited :
      (deadline : ℕ) (past : Events) (rest : Task) (x : Exchange) (r : Result TaskStatus)
      → task_status x ≡ r
      → ((t : Events) → Ends Waited t rest)
      → Ends Waited
          ((send (status_request node upid), x) ∷ past)
          (after_status show node upid timeout deadline rest r)
  unfolding after_status after_clock after_pause
  after_status-Waited deadline past rest x (err e) same later = failed e
  after_status-Waited deadline past rest x (ok st) same later =
      let t : Events = (send (status_request node upid), x) ∷ past in
      if-split (Ends Waited t) st.is_done (λ done. stopped x st same done)
        λ still time.
          if-cases (Ends Waited ((now, time) ∷ t)) (ltb deadline time) (failed _) (after _)
    where
      after :
          (t : Events) (stop : Option Failure)
          → Ends Waited ((pause, stop) ∷ t) (after_pause show node upid timeout rest stop)
      after t none = later _
      after t (some e) = failed e

  await-Waited :
      (n deadline : ℕ) (past : Events) → Ends Waited past (await show node upid timeout n deadline)
  unfolding await
  await-Waited zero deadline past = out_of_fuel
  await-Waited (suc n) deadline past = λ x.
      after_status-Waited deadline past (await show node upid timeout n deadline) x (task_status x)
        refl (await-Waited n deadline)

  -- Out of fuel, the wait has paused this often.
  abbrev pub Paused : ℕ → Option (Result TaskStatus) → Events → Type 0
  Paused k none t = spent pauses t ≡ k
  Paused k (some r) t = Unit

  after_status-Paused :
      (k deadline : ℕ) (t : Events) (rest : Task) (r : Result TaskStatus)
      → ((t' : Events) → spent pauses t' ≡ suc (spent pauses t) → Ends (Paused k) t' rest)
      → Ends (Paused k) t (after_status show node upid timeout deadline rest r)
  unfolding after_status after_clock after_pause
  after_status-Paused k deadline t rest (err e) go = tt
  after_status-Paused k deadline t rest (ok st) go =
      if-cases (Ends (Paused k) t) st.is_done tt
        λ time. if-cases (Ends (Paused k) ((now, time) ∷ t)) (ltb deadline time) tt (after time)
    where
      after :
          (time : ℕ) (stop : Option Failure)
          → Ends
              (Paused k)
              ((pause, stop) ∷ (now, time) ∷ t)
              (after_pause show node upid timeout rest stop)
      after time none = go _ (omega arith)
      after time (some e) = tt

  await-Paused :
      (k n deadline : ℕ) (past : Events)
      → spent pauses past + n ≡ k
      → Ends (Paused k) past (await show node upid timeout n deadline)
  unfolding await
  await-Paused k zero deadline past h = omega arith
  await-Paused k (suc n) deadline past h = λ x.
      let t : Events = (send (status_request node upid), x) ∷ past in
      after_status-Paused k deadline t (await show node upid timeout n deadline) (task_status x)
        λ t' more. await-Paused k n deadline t' (omega arith)

  -- What both guarantee.
  pub await_task_completion-Ends :
      (fuel : ℕ)
      → Ends
          (λ out t. Waited out t × Paused fuel out t)
          []
          (await_task_completion show node upid timeout fuel)
  unfolding await_task_completion
  await_task_completion-Ends fuel start =
      Ends-and Waited (Paused fuel) ((now, start) ∷ [])
        (await show node upid timeout fuel (start + timeout))
        (await-Waited fuel (start + timeout) ((now, start) ∷ []))
        (await-Paused fuel fuel (start + timeout) ((now, start) ∷ []) (omega arith))

  -- In every world, a wait that returns a status returns that of the last answer, which was one to the
  -- status request for this task and reported it as stopped; all else is an error.
  pub await_task_completion-Waited :
      (w : World Call Reply) (fuel : ℕ)
      → let (out, t) = run w [] (await_task_completion show node upid timeout fuel) in Waited out t
  unfolding await_task_completion
  await_task_completion-Waited w fuel =
      run-Ends Waited w [] (await_task_completion show node upid timeout fuel)
        (λ start. await-Waited fuel (start + timeout) ((now, start) ∷ []))
