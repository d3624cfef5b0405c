-- ===== src/Commands/Calls.antt =====
-- internal/commands/dispatcher.go: what the dispatcher asks of its surroundings (the two interfaces
-- ProxmoxActor and CommandStore, and the clock), as the calls of a program.
use proxmoxvue_agent.Base.{ℕ, Bool, Option, List, Bytes}
use proxmoxvue_agent.Base.Program.{Program}
use proxmoxvue_agent.Base.Int.{ℤ}
use proxmoxvue_agent.Base.Failure.{Failure, Result}
use proxmoxvue_agent.Proxmox.Action.{GuestKind, Action}
use proxmoxvue_agent.Json.{RawMessage}

-- The fields of supabase.Command that Handle reads; the time is in nanoseconds since Go's zero time.
pub record Command : Type 0 where
  pub id : ℤ
  pub kind : Bytes
  pub payload : RawMessage
  pub expires_at : ℕ

-- type CreateVMSpec struct
pub record CreateVmSpec : Type 0 where
  pub node : Bytes
  pub vmid : ℤ
  pub name : Bytes
  pub cores : ℤ
  pub memory_mb : ℤ
  pub disk_storage : Bytes
  pub disk_size_gb : ℤ
  pub network_bridge : Bytes

-- type CreateLXCSpec struct
pub record CreateLxcSpec : Type 0 where
  pub node : Bytes
  pub vmid : ℤ
  pub hostname : Bytes
  pub os_template : Bytes
  pub password : Bytes
  pub cores : ℤ
  pub memory_mb : ℤ
  pub disk_storage : Bytes
  pub disk_size_gb : ℤ
  pub network_bridge : Bytes
  pub unprivileged : Bool

-- The methods of ProxmoxActor that start a task; each replies with the task's UPID.
pub data ActorCall : Type 0 where
  perform_action : GuestKind → (node : Bytes) → (vmid : ℤ) → Action → ActorCall
  create_snapshot :
      GuestKind
      → (node : Bytes) → (vmid : ℤ) → (name description : Bytes) → (include_vm_state : Bool)
      → ActorCall
  delete_snapshot : GuestKind → (node : Bytes) → (vmid : ℤ) → (name : Bytes) → ActorCall
  rollback_snapshot : GuestKind → (node : Bytes) → (vmid : ℤ) → (name : Bytes) → ActorCall
  create_vm : CreateVmSpec → ActorCall
  create_lxc : CreateLxcSpec → ActorCall
  delete_guest :
      GuestKind → (node : Bytes) → (vmid : ℤ) → (destroy_disks purge_backups : Bool) → ActorCall

-- type TaskStatus struct
pub record TaskStatus : Type 0 where
  pub upid : Bytes
  pub is_done : Bool
  pub exit_status : Bytes

-- The result column: a map from names to texts.
abbrev pub ResultMap : Type 0
ResultMap = List (Bytes × Bytes)

pub data Call : Type 0 where
  -- time.Now()
  now : Call
  claim_command : (id : ℤ) → Call
  complete_command : (id : ℤ) → (status : Bytes) → (result : ResultMap) → Call
  actor : ActorCall → Call
  await_task_completion : (node upid : Bytes) → (timeout : ℕ) → Call

abbrev pub Reply : Call → Type 0
Reply now = ℕ
Reply (claim_command id) = Result Bool
Reply (complete_command id status result) = Option Failure
Reply (actor c) = Result Bytes
Reply (await_task_completion node upid timeout) = Result TaskStatus

-- What Handle does, with the error that it returns.
abbrev pub Handler : Type 0
Handler = Program Call Reply (Option Failure)
