-- ===== src/Commands/Dispatcher/Outcome.antt =====
-- The specification of Handle: the stories that a command can have, each the whole list of calls and
-- replies (the latest first) with the error that Handle returns.
use proxmoxvue_agent.Base.{
  ℕ, ◌≡◌, refl, sym, ◌⊎◌, Bool, true, false, Option, none, some, List, [], ◌∷◌, ◌++◌, arith, ltb,
  ◌==◌, if◌then◌else◌, ==_iff, Bytes, codes, str_eq, if-split,
}
use proxmoxvue_agent.Base.Program.{Event, World, run}
use proxmoxvue_agent.Base.Int.{format_int}
use proxmoxvue_agent.Base.Failure.{Failure, wrap, message, Result, ok, err}
use proxmoxvue_agent.Crypto.{Hpke}
use proxmoxvue_agent.Commands.Calls.{
  Call, Reply, Command, now, Handler, TaskStatus, claim_command, complete_command, ActorCall,
  await_task_completion, actor,
}
use proxmoxvue_agent.Commands.Route.{Dispatcher}
use proxmoxvue_agent.Commands.Dispatcher.{
  handle, after_action, after_claim, after_wait, after_expired_claim, handle_live, handle_expired,
}
use proxmoxvue_agent.Base.Ledger.{run-Ends, Ends}
use proxmoxvue_agent.Commands.Dispatcher.Body.{Body, claimed-Body, failing, IsAsked, acting}
use proxmoxvue_agent.Commands.Payload.{CommandPayload}

abbrev pub Events : Type 0
Events = List (Event Call Reply)

module _ (hpke : Hpke) (d : Dispatcher) (cmd : Command) where
  -- The look at the clock, which a command with no deadline is spared.
  pub data Clock (late : Bool) : Events → Type 0 where
    no_deadline : cmd.expires_at ≡ 0 → late ≡ false → Clock late []
    read_clock :
        (time : ℕ)
        → (cmd.expires_at == 0) ≡ false
        → late ≡ ltb cmd.expires_at time
        → Clock late ((now, time) ∷ [])

  pub data Story : Option Failure → Events → Type 0 where
    claim_failed :
        {past : Events} (e : Failure)
        → Clock false past
        → Story
            (some (wrap (codes "claim " ++ format_int cmd.id ++ codes ": ") e))
            ((claim_command cmd.id, err e) ∷ past)
    -- Past the deadline a failed claim is not reported.
    late_claim_failed :
        {past : Events} (e : Failure)
        → Clock true past
        → Story none ((claim_command cmd.id, err e) ∷ past)
    claim_lost :
        {late : Bool} {past : Events}
        → Clock late past
        → Story none ((claim_command cmd.id, ok false) ∷ past)
    expired :
        {past : Events} (r : Option Failure)
        → Clock true past
        → Story r (
            (complete_command cmd.id (codes "expired") ((codes "reason", codes "ttl") ∷ []), r)
            ∷ (claim_command cmd.id, ok true)
            ∷ past)
    -- Nothing was asked of Proxmox.
    refused :
        {past : Events} (m : Bytes) (r : Option Failure)
        → Clock false past
        → Story r (
            (complete_command cmd.id (codes "failed") ((codes "error", m) ∷ []), r)
            ∷ (claim_command cmd.id, ok true)
            ∷ past)
    -- Proxmox did not start the task.
    not_started :
        {past : Events} {p : CommandPayload} {c : ActorCall} (e : Failure) (r : Option Failure)
        → IsAsked hpke d cmd p c
        → Clock false past
        → Story r (
            (complete_command cmd.id (codes "failed") ((codes "error", message e) ∷ []), r)
            ∷ (actor c, err e)
            ∷ (claim_command cmd.id, ok true)
            ∷ past)
    -- The wait for the task failed or took too long.
    lost_track :
        {past : Events} {p : CommandPayload} {c : ActorCall} (upid : Bytes) (e : Failure)
        (r : Option Failure)
        → IsAsked hpke d cmd p c
        → Clock false past
        → Story r (
            (
              complete_command cmd.id
                  (codes "failed")
                  ((codes "upid", upid) ∷ (codes "error", message e) ∷ []),
              r,
            )
            ∷ (await_task_completion p.node upid d.action_timeout, err e)
            ∷ (actor c, ok upid)
            ∷ (claim_command cmd.id, ok true)
            ∷ past)
    -- The task ended, and its exit status is the verdict.
    ended :
        {past : Events} {p : CommandPayload} {c : ActorCall} (upid status : Bytes) (st : TaskStatus)
        (r : Option Failure)
        → IsAsked hpke d cmd p c
        → Clock false past
        → (str_eq st.exit_status (codes "OK") ≡ true) × (status ≡ codes "done")
          ⊎ (str_eq st.exit_status (codes "OK") ≡ false) × (status ≡ codes "failed")
        → Story r (
            (
              complete_command cmd.id status
                  ((codes "upid", upid) ∷ (codes "exitstatus", st.exit_status) ∷ []),
              r,
            )
            ∷ (await_task_completion p.node upid d.action_timeout, ok st)
            ∷ (actor c, ok upid)
            ∷ (claim_command cmd.id, ok true)
            ∷ past)

  verdict :
      (st : TaskStatus)
      → let test = str_eq st.exit_status (codes "OK") in
        let status = if test then codes "done" else codes "failed" in
        (test ≡ true) × (status ≡ codes "done") ⊎ (test ≡ false) × (status ≡ codes "failed")
  verdict st = ground arith

  after_wait-Story :
      {past : Events} {p : CommandPayload} {c : ActorCall}
      → IsAsked hpke d cmd p c
      → Clock false past
      → (upid : Bytes) (r : Result TaskStatus)
      → Ends Story
          ((await_task_completion p.node upid d.action_timeout, r)
            ∷ (actor c, ok upid)
            ∷ (claim_command cmd.id, ok true)
            ∷ past)
          (after_wait cmd.id upid r)
  unfolding after_wait
  after_wait-Story asked clock upid (err e) = λ r. lost_track upid e r asked clock
  after_wait-Story asked clock upid (ok st) = λ r. ended upid _ st r asked clock (verdict st)

  after_action-Story :
      {past : Events} {p : CommandPayload} {c : ActorCall}
      → IsAsked hpke d cmd p c
      → Clock false past
      → (r : Result Bytes)
      → Ends Story
          ((actor c, r) ∷ (claim_command cmd.id, ok true) ∷ past)
          (after_action cmd.id p.node d.action_timeout r)
  unfolding after_action
  after_action-Story asked clock (err e) = λ r. not_started e r asked clock
  after_action-Story asked clock (ok upid) = λ r. after_wait-Story asked clock upid r

  Body-Story :
      {past : Events} {p : Handler}
      → Clock false past
      → Body hpke d cmd p
      → Ends Story ((claim_command cmd.id, ok true) ∷ past) p
  Body-Story clock (failing m) = λ r. refused m r clock
  Body-Story clock (acting p c asked) = λ r. after_action-Story asked clock r

  after_claim-Story :
      {past : Events}
      → Clock false past
      → (r : Result Bool) → Ends Story ((claim_command cmd.id, r) ∷ past) (after_claim hpke d cmd r)
  unfolding after_claim
  after_claim-Story clock (err e) = claim_failed e clock
  after_claim-Story clock (ok false) = claim_lost clock
  after_claim-Story clock (ok true) = Body-Story clock (claimed-Body hpke d cmd)

  after_expired_claim-Story :
      {past : Events}
      → Clock true past
      → (r : Result Bool)
      → Ends Story ((claim_command cmd.id, r) ∷ past) (after_expired_claim cmd r)
  unfolding after_expired_claim
  after_expired_claim-Story clock (err e) = late_claim_failed e clock
  after_expired_claim-Story clock (ok false) = claim_lost clock
  after_expired_claim-Story clock (ok true) = λ r. expired r clock

  pub handle-Ends : Ends Story [] (handle hpke d cmd)
  unfolding handle handle_live handle_expired
  handle-Ends =
      if-split (Ends Story []) (cmd.expires_at == 0)
        (λ never. after_claim-Story (no_deadline ((==_iff cmd.expires_at 0).0 never) refl))
        λ timed time.
          if-split (Ends Story ((now, time) ∷ [])) (ltb cmd.expires_at time)
            (λ late. after_expired_claim-Story (read_clock time timed (sym late)))
            (λ early. after_claim-Story (read_clock time timed (sym early)))

  -- In every world, what Handle calls and returns is one of the stories of the specification: it
  -- claims once; past the deadline it writes "expired" and asks nothing of Proxmox; of Proxmox it
  -- asks at most one task, for a known kind, on the checked payload of the command; whoever wins the
  -- claim writes the row once, with "done" exactly if the awaited task ended with OK; and the error
  -- that is returned is that of the completion, or of a claim that failed before the deadline.
  pub handle-Story : (w : World Call Reply) → let (r, t) = run w [] (handle hpke d cmd) in Story r t
  handle-Story w = run-Ends Story w [] (handle hpke d cmd) handle-Ends
