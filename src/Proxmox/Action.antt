-- ===== src/Proxmox/Action.antt =====
-- internal/proxmox/actions.go: guest kinds, actions and their categories.
pub mod Routing
use proxmoxvue_agent.Base.{◌≡◌, refl, Bool, true, false, ◌||◌, Bytes, codes, str_eq, if◌then◌else◌}

-- type GuestKind string
abbrev pub GuestKind : Type 0
GuestKind = Bytes

abbrev pub guest_kind_qemu : GuestKind
guest_kind_qemu = codes "qemu"

abbrev pub guest_kind_lxc : GuestKind
guest_kind_lxc = codes "lxc"

-- type Action string
abbrev pub Action : Type 0
Action = Bytes

abbrev pub action_start : Action
action_start = codes "start"

abbrev pub action_stop : Action
action_stop = codes "stop"

abbrev pub action_reboot : Action
action_reboot = codes "reboot"

abbrev pub action_shutdown : Action
action_shutdown = codes "shutdown"

abbrev pub action_suspend : Action
action_suspend = codes "suspend"

abbrev pub action_resume : Action
action_resume = codes "resume"

abbrev pub action_snapshot_create : Action
action_snapshot_create = codes "snapshot.create"

abbrev pub action_snapshot_delete : Action
action_snapshot_delete = codes "snapshot.delete"

abbrev pub action_snapshot_rollback : Action
action_snapshot_rollback = codes "snapshot.rollback"

abbrev pub action_vm_create : Action
action_vm_create = codes "vm.create"

abbrev pub action_lxc_create : Action
action_lxc_create = codes "lxc.create"

abbrev pub action_guest_delete : Action
action_guest_delete = codes "guest.delete"

unfoldable pub is_power_action : Action → Bool
is_power_action a =
    str_eq a action_start
    || str_eq a action_stop
    || str_eq a action_reboot
    || str_eq a action_shutdown
    || str_eq a action_suspend
    || str_eq a action_resume

unfoldable pub is_snapshot_action : Action → Bool
is_snapshot_action a =
    str_eq a action_snapshot_create
    || str_eq a action_snapshot_delete
    || str_eq a action_snapshot_rollback

unfoldable pub is_create_action : Action → Bool
is_create_action a = str_eq a action_vm_create || str_eq a action_lxc_create

unfoldable pub is_known : Action → Bool
is_known a =
    if is_power_action a || is_snapshot_action a || is_create_action a
    then true
    else str_eq a action_guest_delete
