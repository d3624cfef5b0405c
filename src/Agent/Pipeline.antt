-- ===== src/Agent/Pipeline.antt =====
-- internal/runtime/runtime.go: handleCommand and pushOnce. What is logged is left out, and so is the
-- count of the snapshot's entries, which is for the log only.
pub mod Order
use proxmoxvue_agent.Base.{
  ℕ, zero, suc, ◌+◌, ◌-◌, ◌*◌, ◌/◌, ◌%◌, ◌^◌, ◌≤◌, ◌<◌, ◌≡◌, ◌≢◌, refl, sym, ap, ◌∙◌, ◌↔◌, ◌⊎◌, inl,
  inr, Bool, true, false, not, ◌&&◌, ◌||◌, Option, none, some, List, [], ◌∷◌, ◌++◌, map, append-nil,
  append_assoc, arith, ltb, leb, ◌==◌, if◌then◌else◌, ==_iff, Bool-cases, Option-cases, &&-true,
  ||-true, length, take, drop, all, any, All, Bytes, codes, str_eq, str_eq_iff, str_eq→eq,
  str_eq_refl, is_empty, format_nat, if-cases, if-split,
}
use proxmoxvue_agent.Base.Program.{Program, ret, call, ◌>>=◌, ◌>>◌, perform, Event, World, run}
use proxmoxvue_agent.Base.Int.{
  ℤ, pos, negsuc, is_zero, is_negative, is_positive, format_int, int_eq,
}
use proxmoxvue_agent.Base.Failure.{
  Failure, text, refresh_revoked, post_join_closed, wrap, message, is_revoked, Result, ok, err,
  wrap_err,
}
use proxmoxvue_agent.Crypto.{Hpke}
use proxmoxvue_agent.Base.Compose.{lift}
use proxmoxvue_agent.Json.{Json, null, RawMessage}
use proxmoxvue_agent.Commands.Calls.{Command}
use proxmoxvue_agent.Commands.Route.{Dispatcher}
use proxmoxvue_agent.Supabase.Commands.{push_snapshot}
use proxmoxvue_agent.Supabase.Session.{Session}
use proxmoxvue_agent.Proxmox.Tasks.{send}
use proxmoxvue_agent.Proxmox.Cluster.{resources_request, cluster_resources}
use proxmoxvue_agent.Runtime.ClusterWait.{Outcome, wait_for_cluster_state_match}
use proxmoxvue_agent.Agent.{
  Call, Reply, supabase, proxmox, write_heartbeat, supabase_reply, proxmox_reply, failure_of,
  handle_on_wire,
}

-- json.Marshal of a json.RawMessage
abbrev pub payload_of : RawMessage → Json
payload_of none = null
payload_of (some j) = j

-- touchHeartbeat(path)
unfoldable pub touch_heartbeat : Bytes → Program {0} Call Reply Unit
touch_heartbeat path = if is_empty path then ret tt else do perform (write_heartbeat path); ret tt

-- `stamp` and `show` print a time and a duration.
module _ (stamp : ℕ → Bytes) (show : ℕ → Bytes) where
  unfoldable pub after_resources :
      Bytes → Session → Result RawMessage → Program Call Reply (Option (Option Failure × Session))
  after_resources cluster_id s (err e) = ret (some (some e, s))
  after_resources cluster_id s (ok resources) = do
    out ←
        lift supabase supabase_reply (push_snapshot stamp true cluster_id (payload_of resources) s)
    ret (elim out [ none ↦ none | some (r, s') ↦ some (failure_of r, s') ])

  -- pushOnce(ctx, pve, sb, clusterID, heartbeatPath); none is a panic.
  unfoldable pub push_once :
      Bytes → Bytes → Session → Program Call Reply (Option (Option Failure × Session))
  push_once cluster_id heartbeat_path s = do
    touch_heartbeat heartbeat_path
    answer ← perform (proxmox (send resources_request))
    after_resources cluster_id s (cluster_resources answer)

  module _ (cluster_id heartbeat_path : Bytes) where
    -- How far a command has come, with the session that is left.
    pub data Progress : Type 0 where
      -- Handle returned an error, which is logged.
      not_handled : Failure → Session → Progress
      -- The push has been tried; its error is logged.
      push_tried : Outcome → Option Failure → Session → Progress

    unfoldable pub after_match : Session → Option Outcome → Program Call Reply (Option Progress)
    after_match s none = ret none
    after_match s (some o) = do
      out ← push_once cluster_id heartbeat_path s
      ret (elim out [ none ↦ none | some (r, s') ↦ some (push_tried o r s') ])

    unfoldable pub after_handle :
        Command → ℕ → Option (Option Failure × Session) → Program Call Reply (Option Progress)
    after_handle cmd fuel none = ret none
    after_handle cmd fuel (some (some e, s)) = ret (some (not_handled e s))
    after_handle cmd fuel (some (none, s)) =
        lift proxmox proxmox_reply (wait_for_cluster_state_match cmd fuel) >>= after_match s

    -- handleCommand(ctx, d, pve, sb, clusterID, heartbeatPath, cmd). `fuel` is for the polls of each of
    -- the two waits; none is out of fuel.
    unfoldable pub handle_command :
        Hpke → Dispatcher → Command → ℕ → Session → Program Call Reply (Option Progress)
    handle_command hpke d cmd fuel s =
        handle_on_wire stamp show fuel hpke d cmd s >>= after_handle cmd fuel
