-- ===== src/Commands/Payload.antt =====
-- internal/commands/dispatcher.go: the payload of a command, the guest that it names, and the
-- states that a command is expected to lead to.
use proxmoxvue_agent.Base.{
  ℕ, ◌*◌, Bool, not, ◌||◌, Option, none, some, if◌then◌else◌, Bytes, codes, str_eq, is_empty,
}
use proxmoxvue_agent.Base.Int.{ℤ, is_positive}
use proxmoxvue_agent.Base.Failure.{Result, ok, err, ◌>>=◌}
use proxmoxvue_agent.Json.{members, RawMessage, Members, decode_string, decode_int, decode_bool}
use proxmoxvue_agent.Proxmox.Action.{GuestKind, guest_kind_qemu, guest_kind_lxc}

-- type commandPayload struct
pub record CommandPayload : Type 0 where
  pub guest_kind : Bytes
  pub node : Bytes
  pub vmid : ℤ
  pub name : Bytes
  pub description : Bytes
  pub include_vm_state : Bool
  pub cores : ℤ
  pub memory_mb : ℤ
  pub disk_storage : Bytes
  pub disk_size_gb : ℤ
  pub network_bridge : Bytes
  pub hostname : Bytes
  pub os_template : Bytes
  pub password : Bytes
  pub password_enc : Bytes
  pub unprivileged : Bool
  pub destroy_disks : Bool
  pub purge_backups : Bool

abbrev struct_prefix : Bytes
struct_prefix = codes "commandPayload."

abbrev string_field : Members → Bytes → Result Bytes
string_field ms key = decode_string struct_prefix key ms

abbrev int_field : Members → Bytes → Result ℤ
int_field ms key = decode_int struct_prefix key ms

abbrev bool_field : Members → Bytes → Result Bool
bool_field ms key = decode_bool struct_prefix key ms

-- json.Unmarshal(cmd.Payload, &p)
unfoldable pub decode_payload : RawMessage → Result CommandPayload
unfolding members decode_string decode_int decode_bool
decode_payload raw = do
  ms ← members (codes "commands.commandPayload") raw
  guest_kind ← string_field ms (codes "guest_kind")
  node ← string_field ms (codes "node")
  vmid ← int_field ms (codes "vmid")
  name ← string_field ms (codes "name")
  description ← string_field ms (codes "description")
  include_vm_state ← bool_field ms (codes "include_vmstate")
  cores ← int_field ms (codes "cores")
  memory_mb ← int_field ms (codes "memory_mb")
  disk_storage ← string_field ms (codes "disk_storage")
  disk_size_gb ← int_field ms (codes "disk_size_gb")
  network_bridge ← string_field ms (codes "network_bridge")
  hostname ← string_field ms (codes "hostname")
  os_template ← string_field ms (codes "ostemplate")
  password ← string_field ms (codes "password")
  password_enc ← string_field ms (codes "password_enc")
  unprivileged ← bool_field ms (codes "unprivileged")
  destroy_disks ← bool_field ms (codes "destroy_disks")
  purge_backups ← bool_field ms (codes "purge_backups")
  ok (record {
    guest_kind = guest_kind;
    node = node;
    vmid = vmid;
    name = name;
    description = description;
    include_vm_state = include_vm_state;
    cores = cores;
    memory_mb = memory_mb;
    disk_storage = disk_storage;
    disk_size_gb = disk_size_gb;
    network_bridge = network_bridge;
    hostname = hostname;
    os_template = os_template;
    password = password;
    password_enc = password_enc;
    unprivileged = unprivileged;
    destroy_disks = destroy_disks;
    purge_backups = purge_backups;
  })

-- kind != GuestKindQEMU && kind != GuestKindLXC, the other way round
unfoldable pub is_guest_kind : Bytes → Bool
is_guest_kind kind = str_eq kind guest_kind_qemu || str_eq kind guest_kind_lxc

-- p.Node == "" || p.VMID <= 0
unfoldable pub lacks_guest : CommandPayload → Bool
lacks_guest p = is_empty p.node || not (is_positive p.vmid)

-- type GuestRef struct
pub record GuestRef : Type 0 where
  pub guest_kind : GuestKind
  pub node : Bytes
  pub vmid : ℤ

guest_ref_of : CommandPayload → Option GuestRef
unfolding is_guest_kind lacks_guest
guest_ref_of p =
    if not (is_guest_kind p.guest_kind)
    then none
    else if lacks_guest p
    then none
    else some (record { guest_kind = p.guest_kind; node = p.node; vmid = p.vmid })

-- ParseGuestRef(cmd), of the command's payload
unfoldable pub parse_guest_ref : RawMessage → Option GuestRef
unfolding guest_ref_of
parse_guest_ref raw = elim (decode_payload raw) [ err e ↦ none | ok p ↦ guest_ref_of p ]

-- type stateExpectation struct, the timeout in nanoseconds
pub record StateExpectation : Type 0 where
  pub expected : Bytes
  pub timeout : ℕ

abbrev pub second : ℕ
second = 1000000000

-- ExpectedStateFor(kind), with the table expectedStates
unfoldable pub expected_state_for : Bytes → Option StateExpectation
expected_state_for kind =
    if str_eq kind (codes "start") || str_eq kind (codes "resume") || str_eq kind (codes "reboot")
    then some (record { expected = codes "running"; timeout = 10 * second })
    else if str_eq kind (codes "stop") || str_eq kind (codes "shutdown")
    then some (record { expected = codes "stopped"; timeout = 10 * second })
    else if str_eq kind (codes "suspend")
    then some (record { expected = codes "paused"; timeout = 10 * second })
    else none
