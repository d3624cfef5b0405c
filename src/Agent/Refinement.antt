-- ===== src/Agent/Refinement.antt =====
-- The dispatcher on the wire: what its calls come to.
use proxmoxvue_agent.Base.{
  ℕ, ◌≡◌, refl, Bool, true, Option, none, some, List, [], ◌∷◌, arith, Bytes, codes,
}
use proxmoxvue_agent.Base.Program.{Event, World, run}
use proxmoxvue_agent.Base.Int.{ℤ}
use proxmoxvue_agent.Base.Failure.{Result}
use proxmoxvue_agent.Crypto.{Hpke}
use proxmoxvue_agent.Base.Ledger.{Ends, Ends-bind, Ends-mono, run-Ends, spent}
use proxmoxvue_agent.Base.Compose.{
  Stands, none_yet, one_more, lift-Ends, Fulfils, nothing, Refines, interpret-Ends,
}
use proxmoxvue_agent.Json.{Json, member, end, string, object}
use proxmoxvue_agent.Commands.Calls
use proxmoxvue_agent.Commands.Calls.{
  Command, ResultMap, TaskStatus, claim_command, complete_command, actor, await_task_completion,
}
use proxmoxvue_agent.Commands.Route.{Dispatcher}
use proxmoxvue_agent.Commands.Dispatcher.{handle}
use proxmoxvue_agent.Commands.Dispatcher.Outcome.{Story, handle-Ends}
use proxmoxvue_agent.Supabase.Commands
use proxmoxvue_agent.Supabase.Commands.{claim_row, row_path}
use proxmoxvue_agent.Supabase.Commands.Claim.{Claimed, claim_row-Ends, Claimed-none}
use proxmoxvue_agent.Supabase.Rest.Patch.{Changed, patch_row-Ends, Changed-none, patch_request}
use proxmoxvue_agent.Supabase.Rest.{patch_row}
use proxmoxvue_agent.Supabase.Session.{Session}
use proxmoxvue_agent.Supabase.Session
use proxmoxvue_agent.Supabase.Session.Refresh
use proxmoxvue_agent.Proxmox.Tasks.{send}
use proxmoxvue_agent.Proxmox.Tasks
use proxmoxvue_agent.Proxmox.Tasks.Wait
use proxmoxvue_agent.Proxmox.Tasks.Wait.{Waited, Paused, pauses, await_task_completion-Ends}
use proxmoxvue_agent.Proxmox.Client.{Exchange}
use proxmoxvue_agent.Proxmox.Requests.{request_of, started}
use proxmoxvue_agent.Agent.{
  Call, Reply, now, supabase, proxmox, supabase_reply, proxmox_reply, result_json, failure_of,
  carry_out, handle_on_wire,
}

abbrev pub Events : Type 0
Events = List (Event Call Reply)

-- The latest events are those of a request for rows.
abbrev pub ForSupabase : Events → Refresh.Events → Events → Type 0
ForSupabase u t u' = Stands supabase supabase_reply u t u'

-- The latest events are those of a wait for a task.
abbrev pub ForProxmox : Events → Wait.Events → Events → Type 0
ForProxmox u t u' = Stands proxmox proxmox_reply u t u'

module _ (stamp : ℕ → Bytes) (show : ℕ → Bytes) (fuel : ℕ) where
  -- The body that closes a command's row.
  abbrev pub closing : Bytes → ResultMap → ℕ → Json
  closing status result time = object (
      member (codes "completed_at") (string (stamp time)) (
        member (codes "result") (result_json result) (member (codes "status") (string status) end)))

  -- What a call of the dispatcher comes to: the events behind it, and what its reply and the tokens
  -- are then.
  abbrev pub Does : (c : Calls.Call) → Session → Events → Calls.Reply c → Session → Events → Type 0
  Does Calls.now s u r s' u' = (s' ≡ s) × (u' ≡ (now, r) ∷ u)
  Does (claim_command id) s u r s' u' =
      (t : Refresh.Events) × ForSupabase u t u'
      × Claimed stamp true (codes "commands") id (some (r, s')) t
  Does (complete_command id status result) s u r s' u' =
      (t : Refresh.Events) × ForSupabase u t u'
      × (time : ℕ) × (done : Result {0} Unit) × Changed true
          (patch_request (row_path (codes "commands") id) (closing status result time))
          (some (done, s')) t
      × (r ≡ failure_of done)
  Does (actor c) s u r s' u' =
      (answer : Exchange) × (s' ≡ s)
      × (r ≡ started c answer)
      × (u' ≡ (proxmox (send (request_of c)), answer) ∷ u)
  Does (await_task_completion node upid timeout) s u r s' u' =
      (t : Wait.Events) × ForProxmox u t u' × (s' ≡ s) × Waited show node upid timeout (some r) t

  -- A wait for a task has used up its fuel, so it has paused that often.
  abbrev pub Exhausted : Events → Type 0
  Exhausted u' = (u : Events) × (t : Wait.Events) × ForProxmox u t u' × (spent pauses t ≡ fuel)

  module _ (s : Session) (u : Events) where
    abbrev Kept : (c : Calls.Call) → Option (Calls.Reply c × Session) → Events → Type 0
    Kept c = Fulfils Exhausted Does c s u

    claim-Does :
        (id : ℤ) → Ends (Kept (claim_command id)) u (carry_out stamp show fuel (claim_command id) s)
    unfolding carry_out Commands.claim_command
    claim-Does id = Ends-mono _ (Kept (claim_command id)) u _ after (
        lift-Ends supabase supabase_reply (Claimed stamp true (codes "commands") id) u [] u
          (claim_row stamp true (codes "commands") id s) none_yet
          (claim_row-Ends stamp true (codes "commands") id s))
      where
        after :
            (out : Option (Result Bool × Session)) (u' : Events)
            → ((t : Refresh.Events) × ForSupabase u t u'
                × Claimed stamp true (codes "commands") id out t)
            → Kept (claim_command id) out u'
        after (some (r, s')) u' h = h
        after none u' (t, st, h) =
            (let panics = Claimed-none stamp true (codes "commands") id h in absurd (ground arith))

    complete-Does :
        (id : ℤ) (status : Bytes) (result : ResultMap)
        → Ends
            (Kept (complete_command id status result))
            u
            (carry_out stamp show fuel (complete_command id status result) s)
    unfolding carry_out Commands.complete_command
    complete-Does id status result time =
        Ends-bind
          (λ out u'.
            (t : Refresh.Events) × ForSupabase u t u'
            × Changed true (patch_request path (closing status result time)) out t)
          (Kept (complete_command id status result)) ((supabase Session.now, time) ∷ u) _ _
          (lift-Ends supabase supabase_reply
            (Changed true (patch_request path (closing status result time))) u
            ((Session.now, time) ∷ []) ((supabase Session.now, time) ∷ u)
            (patch_row true path (closing status result time) s)
            (one_more Session.now time none_yet)
            (patch_row-Ends true path (closing status result time) s ((Session.now, time) ∷ [])
              (refl, refl)))
          after
      where
        path : Bytes
        path = row_path (codes "commands") id

        after :
            (out : Option (Result {0} Unit × Session)) (u' : Events)
            → ((t : Refresh.Events) × ForSupabase u t u'
                × Changed true (patch_request path (closing status result time)) out t)
            → Kept
                (complete_command id status result)
                (elim out [ none ↦ none | some (r, s') ↦ some (failure_of r, s') ])
                u'
        after (some (r, s')) u' (t, st, h) = (t, st, time, r, h, refl)
        after none u' (t, st, h) =
            (let panics = Changed-none true (patch_request path (closing status result time)) h in
              absurd (ground arith))

    await-Does :
        (node upid : Bytes) (timeout : ℕ)
        → Ends
            (Kept (await_task_completion node upid timeout))
            u
            (carry_out stamp show fuel (await_task_completion node upid timeout) s)
    unfolding carry_out
    await-Does node upid timeout =
        Ends-bind
          (λ out u'.
            (t : Wait.Events) × ForProxmox u t u'
            × (Waited show node upid timeout out t × Paused show node upid timeout fuel out t))
          (Kept (await_task_completion node upid timeout)) u _ _
          (lift-Ends proxmox proxmox_reply _ u [] u
            (Tasks.await_task_completion show node upid timeout fuel) none_yet
            (await_task_completion-Ends show node upid timeout fuel))
          after
      where
        after :
            (out : Option (Result TaskStatus)) (u' : Events)
            → ((t : Wait.Events) × ForProxmox u t u'
                × (Waited show node upid timeout out t × Paused show node upid timeout fuel out t))
            → Kept
                (await_task_completion node upid timeout)
                (elim out [ none ↦ none | some r ↦ some (r, s) ])
                u'
        after (some r) u' (t, st, (waited, paused)) = (t, st, refl, waited)
        after none u' (t, st, (waited, paused)) = (u, t, st, paused)

    carry_out-Does : (c : Calls.Call) → Ends (Kept c) u (carry_out stamp show fuel c s)
    unfolding carry_out
    carry_out-Does Calls.now = λ time. (refl, refl)
    carry_out-Does (claim_command id) = claim-Does id
    carry_out-Does (complete_command id status result) = complete-Does id status result
    carry_out-Does (actor c) = λ answer. (answer, refl, refl, refl)
    carry_out-Does (await_task_completion node upid timeout) = await-Does node upid timeout

  pub handle_on_wire-Ends :
      (hpke : Hpke) (d : Dispatcher) (cmd : Command) (s : Session)
      → Ends
          (Refines Exhausted Does (Story hpke d cmd) s [])
          []
          (handle_on_wire stamp show fuel hpke d cmd s)
  unfolding handle_on_wire
  handle_on_wire-Ends hpke d cmd s =
      interpret-Ends Exhausted Does (carry_out stamp show fuel) (λ c s' u'. carry_out-Does s' u' c)
        (Story hpke d cmd) s [] [] s [] (handle hpke d cmd) nothing (handle-Ends hpke d cmd)

  -- In every world, a command that the dispatcher handles through the two clients has one of the
  -- stories of its specification, and the events on the wire carry out the calls of that story in their
  -- order: a claim is won by the answer to a conditional PATCH of the row, a task is asked for by one
  -- request, of which the answer gives its UPID, its status is that of the last answer to a status
  -- request, and a completion is a PATCH of the same row with the status and the result of the story.
  -- Each part goes on with the tokens that the one before has left. Only a wait for a task that has
  -- paused as often as it has fuel stops short of an end.
  pub handle_on_wire-Refines :
      (hpke : Hpke) (d : Dispatcher) (cmd : Command) (s : Session) (w : World Call Reply)
      → let (out, u) = run w [] (handle_on_wire stamp show fuel hpke d cmd s) in
        Refines Exhausted Does (Story hpke d cmd) s [] out u
  handle_on_wire-Refines hpke d cmd s w =
      run-Ends (Refines Exhausted Does (Story hpke d cmd) s []) w []
        (handle_on_wire stamp show fuel hpke d cmd s) (handle_on_wire-Ends hpke d cmd s)
