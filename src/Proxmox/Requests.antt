-- ===== src/Proxmox/Requests.antt =====
-- internal/proxmox/actions.go: the request of each method that starts a task, and the prefix of its
-- errors.
pub mod Start
use proxmoxvue_agent.Base.{
  ℕ, zero, suc, ◌+◌, ◌-◌, ◌*◌, ◌/◌, ◌%◌, ◌^◌, ◌≤◌, ◌<◌, ◌≡◌, ◌≢◌, refl, sym, ap, ◌∙◌, ◌↔◌, ◌⊎◌, inl,
  inr, Bool, true, false, not, ◌&&◌, ◌||◌, Option, none, some, List, [], ◌∷◌, ◌++◌, map, append-nil,
  append_assoc, arith, ltb, leb, ◌==◌, if◌then◌else◌, ==_iff, Bool-cases, Option-cases, &&-true,
  ||-true, length, take, drop, all, any, All, Bytes, codes, str_eq, str_eq_iff, str_eq→eq,
  str_eq_refl, is_empty, format_nat, if-cases, if-split,
}
use proxmoxvue_agent.Base.Program.{Program, ret, call, ◌>>=◌, ◌>>◌, perform, Event, World, run}
use proxmoxvue_agent.Base.Int.{
  ℤ, pos, negsuc, is_zero, is_negative, is_positive, format_int, int_eq,
}
use proxmoxvue_agent.Base.Failure.{
  Failure, text, refresh_revoked, post_join_closed, wrap, message, is_revoked, Result, ok, err,
  wrap_err,
}
use proxmoxvue_agent.Url.{Values, set, path_escape, encode}
use proxmoxvue_agent.Commands.Calls.{
  ActorCall, CreateVmSpec, CreateLxcSpec, perform_action, create_snapshot, delete_snapshot,
  rollback_snapshot, create_vm, create_lxc, delete_guest,
}
use proxmoxvue_agent.Proxmox.Client.{
  decode_data, Request, decoded, post, Exchange, post_form, delete,
}
use proxmoxvue_agent.Proxmox.Action.{GuestKind}

-- /api2/json/nodes/NODE/KIND/VMID
abbrev guest_path : GuestKind → Bytes → ℤ → Bytes
guest_path kind node vmid =
    codes "/api2/json/nodes/" ++ node ++ codes "/" ++ kind ++ codes "/" ++ format_int vmid

-- boolToFlag(b)
unfoldable pub bool_to_flag : Bool → Bytes
bool_to_flag b = if b then codes "1" else codes "0"

abbrev set_if : Bool → Bytes → Bytes → Values → Values
set_if b key value v = if b then set key value v else v

abbrev is_between : ℕ → ℕ → ℕ → Bool
is_between low high c = leb low c && leb c high

-- What stands behind a space that the text begins with: one of ASCII, or one that takes two or three
-- bytes of UTF-8.
after_space : Bytes → Option Bytes
after_space [] = none
after_space (c ∷ []) = if is_between 9 13 c || c == 32 then some [] else none
after_space (c ∷ d ∷ []) =
    if is_between 9 13 c || c == 32
    then some (d ∷ [])
    else if c == 194 && (d == 133 || d == 160)
    then some []
    else none
after_space (c ∷ d ∷ e ∷ rest) =
    if is_between 9 13 c || c == 32
    then some (d ∷ e ∷ rest)
    else if c == 194 && (d == 133 || d == 160)
    then some (e ∷ rest)
    else if c == 225 && d == 154 && e == 128
        || c == 226 && d == 128 && (is_between 128 138 e || e == 168 || e == 169 || e == 175)
        || c == 226 && d == 129 && e == 159
        || c == 227 && d == 128 && e == 128
    then some rest
    else none

only_spaces : ℕ → Bytes → Bool
only_spaces zero s = is_empty s
only_spaces (suc n) s = elim (after_space s) [ none ↦ is_empty s | some rest ↦ only_spaces n rest ]

-- strings.TrimSpace(s) == "": a text has no more spaces than bytes.
unfoldable pub is_blank : Bytes → Bool
unfolding only_spaces after_space
is_blank s = only_spaces (length s) s

-- The form of CreateSnapshot
unfoldable pub snapshot_form : Bytes → Bytes → Bool → Values
unfolding is_blank
snapshot_form name description include_vm_state =
    set_if include_vm_state (codes "vmstate") (codes "1") (
      set_if (not (is_blank description)) (codes "description") description
        ((codes "snapname", name) ∷ []))

-- The form of CreateVM
unfoldable pub vm_form : CreateVmSpec → Values
vm_form spec =
    (codes "vmid", format_int spec.vmid)
    ∷ (codes "name", spec.name)
    ∷ (codes "cores", format_int spec.cores)
    ∷ (codes "memory", format_int spec.memory_mb)
    ∷ (codes "scsi0", spec.disk_storage ++ codes ":" ++ format_int spec.disk_size_gb)
    ∷ (codes "net0", codes "virtio,bridge=" ++ spec.network_bridge)
    ∷ (codes "ostype", codes "l26")
    ∷ []

-- The form of CreateLXC
unfoldable pub lxc_form : CreateLxcSpec → Values
unfolding bool_to_flag
lxc_form spec =
    (codes "vmid", format_int spec.vmid)
    ∷ (codes "hostname", spec.hostname)
    ∷ (codes "ostemplate", spec.os_template)
    ∷ (codes "password", spec.password)
    ∷ (codes "cores", format_int spec.cores)
    ∷ (codes "memory", format_int spec.memory_mb)
    ∷ (codes "rootfs", spec.disk_storage ++ codes ":" ++ format_int spec.disk_size_gb)
    ∷ (codes "net0", codes "name=eth0,bridge=" ++ spec.network_bridge ++ codes ",ip=dhcp")
    ∷ (codes "unprivileged", bool_to_flag spec.unprivileged)
    ∷ (codes "start", codes "0")
    ∷ []

-- The query of DeleteGuest
unfoldable pub delete_query : Bool → Bool → Values
delete_query destroy_disks purge_backups =
    set_if purge_backups (codes "purge") (codes "1")
      (set_if destroy_disks (codes "destroy-unreferenced-disks") (codes "1") [])

abbrev with_query : Bytes → Bytes → Bytes
with_query path query = if not (is_empty query) then path ++ codes "?" ++ query else path

-- The request that a method sends.
unfoldable pub request_of : ActorCall → Request
request_of (perform_action kind node vmid action) =
    post (guest_path kind node vmid ++ codes "/status/" ++ action)
request_of (create_snapshot kind node vmid name description include_vm_state) =
    post_form (guest_path kind node vmid ++ codes "/snapshot")
      (snapshot_form name description include_vm_state)
request_of (delete_snapshot kind node vmid name) =
    delete (guest_path kind node vmid ++ codes "/snapshot/" ++ path_escape name)
request_of (rollback_snapshot kind node vmid name) =
    post (guest_path kind node vmid ++ codes "/snapshot/" ++ path_escape name ++ codes "/rollback")
request_of (create_vm spec) =
    post_form (codes "/api2/json/nodes/" ++ spec.node ++ codes "/qemu") (vm_form spec)
request_of (create_lxc spec) =
    post_form (codes "/api2/json/nodes/" ++ spec.node ++ codes "/lxc") (lxc_form spec)
request_of (delete_guest kind node vmid destroy_disks purge_backups) =
    delete
      (with_query (guest_path kind node vmid) (encode (delete_query destroy_disks purge_backups)))

guest_name : Bytes → GuestKind → ℤ → Bytes
guest_name action kind vmid =
    codes "proxmox " ++ action ++ codes " " ++ kind ++ codes "/" ++ format_int vmid

create_name : Bytes → Bytes → ℤ → Bytes
create_name action node vmid =
    codes "proxmox " ++ action ++ codes " node=" ++ node ++ codes " vmid=" ++ format_int vmid

-- What a method puts in front of an error.
unfoldable pub error_prefix : ActorCall → Bytes
unfolding guest_name create_name
error_prefix (perform_action kind node vmid action) = guest_name action kind vmid ++ codes ": "
error_prefix (create_snapshot kind node vmid name description include_vm_state) =
    guest_name (codes "snapshot.create") kind vmid ++ codes " " ++ name ++ codes ": "
error_prefix (delete_snapshot kind node vmid name) =
    guest_name (codes "snapshot.delete") kind vmid ++ codes " " ++ name ++ codes ": "
error_prefix (rollback_snapshot kind node vmid name) =
    guest_name (codes "snapshot.rollback") kind vmid ++ codes " " ++ name ++ codes ": "
error_prefix (create_vm spec) = create_name (codes "vm.create") spec.node spec.vmid ++ codes ": "
error_prefix (create_lxc spec) = create_name (codes "lxc.create") spec.node spec.vmid ++ codes ": "
error_prefix (delete_guest kind node vmid destroy_disks purge_backups) =
    guest_name (codes "guest.delete") kind vmid ++ codes ": "

-- What a method returns for an answer: the UPID of the task.
unfoldable pub started : ActorCall → Exchange → Result Bytes
unfolding decode_data decoded error_prefix
started c x = wrap_err (error_prefix c) (decoded decode_data x)
