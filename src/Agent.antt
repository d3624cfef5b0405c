-- ===== src/Agent.antt =====
-- internal/runtime/runtime.go: what the parts are put together to. The dispatcher works through
-- the client of internal/supabase and that of internal/proxmox; here the calls of all of them are those of one
-- process.
pub mod Refinement
pub mod Pipeline
mod Tests
use proxmoxvue_agent.Base.{
  ℕ, zero, suc, ◌+◌, ◌-◌, ◌*◌, ◌/◌, ◌%◌, ◌^◌, ◌≤◌, ◌<◌, ◌≡◌, ◌≢◌, refl, sym, ap, ◌∙◌, ◌↔◌, ◌⊎◌, inl,
  inr, Bool, true, false, not, ◌&&◌, ◌||◌, Option, none, some, List, [], ◌∷◌, ◌++◌, map, append-nil,
  append_assoc, arith, ltb, leb, ◌==◌, if◌then◌else◌, ==_iff, Bool-cases, Option-cases, &&-true,
  ||-true, length, take, drop, all, any, All, Bytes, codes, str_eq, str_eq_iff, str_eq→eq,
  str_eq_refl, is_empty, format_nat, if-cases, if-split,
}
use proxmoxvue_agent.Base.Program.{Program, ret, call, ◌>>=◌, ◌>>◌, perform, Event, World, run}
use proxmoxvue_agent.Base.Failure.{
  Failure, text, refresh_revoked, post_join_closed, wrap, message, is_revoked, Result, ok, err,
  wrap_err,
}
use proxmoxvue_agent.Crypto.{Hpke}
use proxmoxvue_agent.Base.Compose.{lift, interpret}
use proxmoxvue_agent.Json.{Json, Members, member, end, string, object}
use proxmoxvue_agent.Url.{sort}
use proxmoxvue_agent.Commands.Calls
use proxmoxvue_agent.Commands.Calls.{
  Command, ResultMap, TaskStatus, claim_command, complete_command, actor, await_task_completion,
}
use proxmoxvue_agent.Commands.Route.{Dispatcher}
use proxmoxvue_agent.Commands.Dispatcher.{handle}
use proxmoxvue_agent.Supabase.Commands
use proxmoxvue_agent.Supabase.Session.{Session}
use proxmoxvue_agent.Supabase.Session.{Call as SessionCall, Reply as SessionReply}
use proxmoxvue_agent.Proxmox.Tasks.{Call as TaskCall, Reply as TaskReply, send}
use proxmoxvue_agent.Proxmox.Tasks
use proxmoxvue_agent.Proxmox.Requests.{request_of, started}

pub data Call : Type 0 where
  -- time.Now()
  now : Call
  -- What supabase.Client calls.
  supabase : SessionCall → Call
  -- What proxmox.Client calls.
  proxmox : TaskCall → Call
  -- os.WriteFile of an empty file, in touchHeartbeat
  write_heartbeat : (path : Bytes) → Call

abbrev pub Reply : Call → Type 0
Reply now = ℕ
Reply (supabase c) = SessionReply c
Reply (proxmox c) = TaskReply c
Reply (write_heartbeat path) = Option Failure

abbrev pub supabase_reply : (c : SessionCall) → Reply (supabase c) → SessionReply c
supabase_reply c r = r

abbrev pub proxmox_reply : (c : TaskCall) → Reply (proxmox c) → TaskReply c
proxmox_reply c r = r

-- The members of a map in the order of json.Marshal
abbrev pub fields : ResultMap → Members
fields [] = end
fields ((key, value) ∷ rest) = member key (string value) (fields rest)

abbrev pub result_json : ResultMap → Json
result_json m = object (fields (sort m))

abbrev pub failure_of : Result {0} Unit → Option Failure
failure_of (ok u) = none
failure_of (err e) = some e

-- The methods that the interfaces CommandStore and ProxmoxActor stand for, of the clients that
-- commands.New(pve, sb) is given. `stamp` and `show` print a time and a duration; a wait has fuel for so many
-- polls, and none is out of fuel.
module _ (stamp : ℕ → Bytes) (show : ℕ → Bytes) (fuel : ℕ) where
  unfoldable pub carry_out :
      (c : Calls.Call) → Session → Program Call Reply (Option (Calls.Reply c × Session))
  carry_out Calls.now s = do time ← perform now; ret (some (time, s))
  carry_out (claim_command id) s =
      lift supabase supabase_reply (Commands.claim_command stamp true id s)
  carry_out (complete_command id status result) s = do
    out ←
        lift supabase supabase_reply
          (Commands.complete_command stamp true id status (result_json result) s)
    ret (elim out [ none ↦ none | some (r, s') ↦ some (failure_of r, s') ])
  carry_out (actor c) s = do
    answer ← perform (proxmox (send (request_of c)))
    ret (some (started c answer, s))
  carry_out (await_task_completion node upid timeout) s = do
    out ← lift proxmox proxmox_reply (Tasks.await_task_completion show node upid timeout fuel)
    ret (elim out [ none ↦ none | some r ↦ some (r, s) ])

  -- Handle(ctx, cmd) of the dispatcher that commands.New(pve, sb) makes
  unfoldable pub handle_on_wire :
      Hpke → Dispatcher → Command → Session → Program Call Reply (Option (Option Failure × Session))
  handle_on_wire hpke d cmd s = interpret carry_out (handle hpke d cmd) s
