-- ===== src/Proxmox/Action/Routing.antt =====
-- How the categories of actions lie to one another.
use proxmoxvue_agent.Base.{◌≡◌, true, false, str_eq, arith}
use proxmoxvue_agent.Proxmox.Action.{
  Action, action_snapshot_create, action_snapshot_delete, action_snapshot_rollback,
  action_vm_create, action_lxc_create, action_guest_delete, is_power_action, is_snapshot_action,
  is_create_action, is_known,
}

-- A known action that is neither a power, a snapshot nor a delete action creates a guest.
pub known_cases :
    (a : Action)
    → is_known a ≡ true
    → is_power_action a ≡ false
    → is_snapshot_action a ≡ false
    → str_eq a action_guest_delete ≡ false
    → is_create_action a ≡ true
unfolding is_known
known_cases a k p s d = ground arith

pub snapshot_cases :
    (a : Action)
    → is_snapshot_action a ≡ true
    → str_eq a action_snapshot_create ≡ false
    → str_eq a action_snapshot_delete ≡ false
    → str_eq a action_snapshot_rollback ≡ true
unfolding is_snapshot_action
snapshot_cases a k c d = ground arith

pub create_cases :
    (a : Action)
    → is_create_action a ≡ true
    → str_eq a action_vm_create ≡ false
    → str_eq a action_lxc_create ≡ true
unfolding is_create_action
create_cases a k v = ground arith
