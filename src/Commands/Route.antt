-- ===== src/Commands/Route.antt =====
-- internal/commands/dispatcher.go: resolveLXCPassword and the switch of Handle, which picks the call
-- of Proxmox for a command.
pub mod Shape
use proxmoxvue_agent.Base.{
  ℕ, zero, suc, ◌+◌, ◌-◌, ◌*◌, ◌/◌, ◌%◌, ◌^◌, ◌≤◌, ◌<◌, ◌≡◌, ◌≢◌, refl, sym, ap, ◌∙◌, ◌↔◌, ◌⊎◌, inl,
  inr, Bool, true, false, not, ◌&&◌, ◌||◌, Option, none, some, List, [], ◌∷◌, ◌++◌, map, append-nil,
  append_assoc, arith, ltb, leb, ◌==◌, if◌then◌else◌, ==_iff, Bool-cases, Option-cases, &&-true,
  ||-true, length, take, drop, all, any, All, Bytes, codes, str_eq, str_eq_iff, str_eq→eq,
  str_eq_refl, is_empty, format_nat,
}
use proxmoxvue_agent.Base.Int.{ℤ, format_int}
use proxmoxvue_agent.Base.Failure.{Failure, text, wrap, message, Result, ok, err, wrap_err}
use proxmoxvue_agent.Base64
use proxmoxvue_agent.Crypto.{Hpke, decrypt}
use proxmoxvue_agent.Commands.Calls.{
  ActorCall, CreateLxcSpec, CreateVmSpec, create_vm, perform_action, create_snapshot, create_lxc,
  delete_guest, delete_snapshot, rollback_snapshot,
}
use proxmoxvue_agent.Commands.Payload.{CommandPayload, second}
use proxmoxvue_agent.Proxmox.Action.{
  action_vm_create, is_power_action, action_snapshot_create, action_lxc_create, is_snapshot_action,
  action_guest_delete, action_snapshot_delete, action_snapshot_rollback, is_create_action,
}
use proxmoxvue_agent.Proxmox.SnapshotName.{is_snapshot_name}

-- type Dispatcher struct, without the two interfaces
pub record Dispatcher : Type 0 where
  -- ActionTimeout, in nanoseconds
  pub action_timeout : ℕ
  -- nil is none
  pub private_key : Option Bytes

-- New(pve, store)
unfoldable pub new : Dispatcher
new = record { action_timeout = 5 * 60 * second; private_key = none }

-- What the switch of Handle decides on: a call of Proxmox, or a text with which the command fails.
pub data Route : Type 0 where
  send : ActorCall → Route
  reject : Bytes → Route

abbrev pub lxc_spec : CommandPayload → Bytes → CreateLxcSpec
lxc_spec p plaintext_pw = record {
  node = p.node;
  vmid = p.vmid;
  hostname = p.hostname;
  os_template = p.os_template;
  password = plaintext_pw;
  cores = p.cores;
  memory_mb = p.memory_mb;
  disk_storage = p.disk_storage;
  disk_size_gb = p.disk_size_gb;
  network_bridge = p.network_bridge;
  unprivileged = p.unprivileged;
}

abbrev pub vm_spec : CommandPayload → CreateVmSpec
vm_spec p = record {
  node = p.node;
  vmid = p.vmid;
  name = p.name;
  cores = p.cores;
  memory_mb = p.memory_mb;
  disk_storage = p.disk_storage;
  disk_size_gb = p.disk_size_gb;
  network_bridge = p.network_bridge;
}

-- case action.IsSnapshotAction()
unfoldable pub route_snapshot : Bytes → CommandPayload → Route
route_snapshot kind p =
    if not (is_snapshot_name p.name)
    then reject (codes "invalid snapshot name: " ++ p.name)
    else if str_eq kind action_snapshot_create
    then send (create_snapshot p.guest_kind p.node p.vmid p.name p.description p.include_vm_state)
    else if str_eq kind action_snapshot_delete
    then send (delete_snapshot p.guest_kind p.node p.vmid p.name)
    else if str_eq kind action_snapshot_rollback
    then send (rollback_snapshot p.guest_kind p.node p.vmid p.name)
    else reject (codes "unrouted snapshot action: " ++ kind)

module _ (hpke : Hpke) where
  -- resolveLXCPassword; the warning that it logs is left out.
  unfoldable pub resolve_lxc_password : Dispatcher → CommandPayload → Result Bytes
  resolve_lxc_password d p =
      if not (is_empty p.password_enc)
      then elim d.private_key [
        | none ↦ err (
            text (
              codes
                "password_enc received but agent has no private key configured (re-run --register)"))
        | some key ↦
            elim (wrap_err (codes "decode password_enc: ") (Base64.decode p.password_enc)) [
              | err e ↦ err e
              | ok raw ↦ wrap_err (codes "decrypt password_enc: ") (decrypt hpke key raw)
            ]
      ]
      else if not (is_empty p.password)
      then ok p.password
      else err (text (codes "missing password (neither password_enc nor password set)"))

  -- case action.IsCreateAction()
  unfoldable pub route_create : Dispatcher → Bytes → CommandPayload → Route
  route_create d kind p =
      if str_eq kind action_vm_create
      then send (create_vm (vm_spec p))
      else if str_eq kind action_lxc_create
      then elim (resolve_lxc_password d p) [
        | err e ↦ reject (message e)
        | ok plaintext_pw ↦ send (create_lxc (lxc_spec p plaintext_pw))
      ]
      else reject (codes "unrouted create action: " ++ kind)

  -- The switch of Handle.
  unfoldable pub route : Dispatcher → Bytes → CommandPayload → Route
  route d kind p =
      if is_power_action kind
      then send (perform_action p.guest_kind p.node p.vmid kind)
      else if is_snapshot_action kind
      then route_snapshot kind p
      else if str_eq kind action_guest_delete
      then send (delete_guest p.guest_kind p.node p.vmid p.destroy_disks p.purge_backups)
      else if is_create_action kind
      then route_create d kind p
      else reject (codes "unrouted kind: " ++ kind)
