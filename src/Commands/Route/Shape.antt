-- ===== src/Commands/Route/Shape.antt =====
-- What the calls that the switch picks look like.
use proxmoxvue_agent.Base.{
  ◌≡◌, refl, ◌⊎◌, inl, inr, true, false, ◌++◌, arith, Bool-cases, Bytes, codes, str_eq, str_eq→eq,
  is_empty,
}
use proxmoxvue_agent.Base.Int.{ℤ, is_positive}
use proxmoxvue_agent.Base.Failure.{Failure, message, Result, ok, err}
use proxmoxvue_agent.Commands.Payload.{is_guest_kind, CommandPayload}
use proxmoxvue_agent.Crypto.{Hpke}
use proxmoxvue_agent.Commands.Calls.{
  ActorCall, perform_action, create_snapshot, delete_snapshot, rollback_snapshot, create_vm,
  create_lxc, delete_guest,
}
use proxmoxvue_agent.Commands.Route.{
  route_create, route, Route, route_snapshot, send, Dispatcher, reject, resolve_lxc_password,
  vm_spec, lxc_spec,
}
use proxmoxvue_agent.Proxmox.Action.{
  is_power_action, action_vm_create, is_known, action_snapshot_create, action_guest_delete,
  action_lxc_create, is_snapshot_action, action_snapshot_delete, action_snapshot_rollback,
  is_create_action,
}
use proxmoxvue_agent.Proxmox.SnapshotName.{is_snapshot_name}
use proxmoxvue_agent.Proxmox.Action.Routing.{snapshot_cases, known_cases, create_cases}

-- A call of Proxmox that the program may make: a guest of a known kind, with a node and a positive
-- number; an action of the right category; a snapshot name that passes the pattern.
abbrev pub IsGuest : Bytes → Bytes → ℤ → Type 0
IsGuest kind node vmid =
    (is_guest_kind kind ≡ true) × (is_empty node ≡ false) × (is_positive vmid ≡ true)

abbrev pub IsTarget : Bytes → ℤ → Type 0
IsTarget node vmid = (is_empty node ≡ false) × (is_positive vmid ≡ true)

abbrev pub IsSound : ActorCall → Type 0
IsSound (perform_action kind node vmid action) =
    IsGuest kind node vmid × (is_power_action action ≡ true)
IsSound (create_snapshot kind node vmid name description include_vm_state) =
    IsGuest kind node vmid × (is_snapshot_name name ≡ true)
IsSound (delete_snapshot kind node vmid name) =
    IsGuest kind node vmid × (is_snapshot_name name ≡ true)
IsSound (rollback_snapshot kind node vmid name) =
    IsGuest kind node vmid × (is_snapshot_name name ≡ true)
IsSound (create_vm spec) = IsTarget spec.node spec.vmid
IsSound (create_lxc spec) = IsTarget spec.node spec.vmid
IsSound (delete_guest kind node vmid destroy_disks purge_backups) = IsGuest kind node vmid

abbrev pub OnSend : (ActorCall → Type 0) → Route → Type 0
OnSend P (send c) = P c
OnSend P (reject message) = Unit

module _ (hpke : Hpke) where
  route_snapshot-IsSound :
      (kind : Bytes) (p : CommandPayload)
      → IsGuest p.guest_kind p.node p.vmid
      → OnSend IsSound (route_snapshot kind p)
  unfolding route_snapshot
  route_snapshot-IsSound kind p g = ground arith

  route_create-IsSound :
      (d : Dispatcher) (kind : Bytes) (p : CommandPayload)
      → IsGuest p.guest_kind p.node p.vmid
      → OnSend IsSound (route_create hpke d kind p)
  unfolding route_create
  route_create-IsSound d kind p g = ground arith

  pub route-IsSound :
      (d : Dispatcher) (kind : Bytes) (p : CommandPayload)
      → IsGuest p.guest_kind p.node p.vmid
      → OnSend IsSound (route hpke d kind p)
  unfolding route
  route-IsSound d kind p g =
      ground (arith, route_snapshot-IsSound kind p g, route_create-IsSound d kind p g)

-- A call is one that the kind of command asks for, on the guest of its payload.
abbrev pub IsFor : Bytes → CommandPayload → ActorCall → Type 0
IsFor kind p (perform_action k n v action) =
    (k ≡ p.guest_kind)
    × (n ≡ p.node)
    × (v ≡ p.vmid)
    × (action ≡ kind)
    × (is_power_action action ≡ true)
IsFor kind p (create_snapshot k n v name description include_vm_state) =
    (k ≡ p.guest_kind)
    × (n ≡ p.node)
    × (v ≡ p.vmid)
    × (name ≡ p.name)
    × (description ≡ p.description)
    × (include_vm_state ≡ p.include_vm_state)
    × (kind ≡ action_snapshot_create)
IsFor kind p (delete_snapshot k n v name) =
    (k ≡ p.guest_kind)
    × (n ≡ p.node)
    × (v ≡ p.vmid)
    × (name ≡ p.name)
    × (kind ≡ action_snapshot_delete)
IsFor kind p (rollback_snapshot k n v name) =
    (k ≡ p.guest_kind)
    × (n ≡ p.node)
    × (v ≡ p.vmid)
    × (name ≡ p.name)
    × (kind ≡ action_snapshot_rollback)
IsFor kind p (create_vm spec) = (spec ≡ vm_spec p) × (kind ≡ action_vm_create)
IsFor kind p (create_lxc spec) = (spec ≡ lxc_spec p spec.password) × (kind ≡ action_lxc_create)
IsFor kind p (delete_guest k n v destroy_disks purge_backups) =
    (k ≡ p.guest_kind)
    × (n ≡ p.node)
    × (v ≡ p.vmid)
    × (destroy_disks ≡ p.destroy_disks)
    × (purge_backups ≡ p.purge_backups)
    × (kind ≡ action_guest_delete)

module _ (hpke : Hpke) where
  route_snapshot-IsFor :
      (kind : Bytes) (p : CommandPayload) → OnSend (IsFor kind p) (route_snapshot kind p)
  unfolding route_snapshot
  route_snapshot-IsFor kind p = ground (
    arith,
    str_eq→eq kind action_snapshot_create,
    str_eq→eq kind action_snapshot_delete,
    str_eq→eq kind action_snapshot_rollback,
  )

  route_create-IsFor :
      (d : Dispatcher) (kind : Bytes) (p : CommandPayload)
      → OnSend (IsFor kind p) (route_create hpke d kind p)
  unfolding route_create
  route_create-IsFor d kind p =
      ground (arith, str_eq→eq kind action_vm_create, str_eq→eq kind action_lxc_create)

  pub route-IsFor :
      (d : Dispatcher) (kind : Bytes) (p : CommandPayload)
      → OnSend (IsFor kind p) (route hpke d kind p)
  unfolding route
  route-IsFor d kind p = ground (
    arith,
    route_snapshot-IsFor kind p,
    route_create-IsFor d kind p,
    str_eq→eq kind action_guest_delete,
  )

  snapshot_refused :
      (kind : Bytes) (p : CommandPayload) (m : Bytes)
      → is_snapshot_action kind ≡ true
      → route_snapshot kind p ≡ reject m
      → (is_snapshot_name p.name ≡ false) × (m ≡ codes "invalid snapshot name: " ++ p.name)
  unfolding route_snapshot
  snapshot_refused kind p m s h = ground (arith, snapshot_cases kind)

  create_refused :
      (d : Dispatcher) (kind : Bytes) (p : CommandPayload) (m : Bytes)
      → is_create_action kind ≡ true
      → route_create hpke d kind p ≡ reject m
      → (str_eq kind action_lxc_create ≡ true)
        × (e : Failure) × (resolve_lxc_password hpke d p ≡ err e)
        × (m ≡ message e)
  unfolding route_create
  create_refused d kind p m c h = go (resolve_lxc_password hpke d p) refl
    where
      go :
          (r : Result Bytes)
          → resolve_lxc_password hpke d p ≡ r
          → (str_eq kind action_lxc_create ≡ true)
            × (e : Failure) × (resolve_lxc_password hpke d p ≡ err e)
            × (m ≡ message e)
      go (ok pw) e = absurd (ground (arith, create_cases kind))
      go (err e) er = (ground (arith, create_cases kind), e, er, ground (arith, create_cases kind))

  -- A known kind is refused by the switch for two reasons only: the snapshot's name does not pass
  -- the pattern, or there is no password to be had for a container. The three "unrouted" branches
  -- are never taken.
  pub route-known :
      (d : Dispatcher) (kind : Bytes) (p : CommandPayload) {m : Bytes}
      → is_known kind ≡ true
      → route hpke d kind p ≡ reject m
      → ((is_snapshot_action kind ≡ true)
          × (is_snapshot_name p.name ≡ false)
          × (m ≡ codes "invalid snapshot name: " ++ p.name))
        ⊎ ((str_eq kind action_lxc_create ≡ true)
            × (e : Failure) × (resolve_lxc_password hpke d p ≡ err e)
            × (m ≡ message e))
  unfolding route
  route-known d kind p {m} known refused = elim (Bool-cases (is_power_action kind)) [
    | inl power ↦ ground arith
    | inr other ↦ elim (Bool-cases (is_snapshot_action kind)) [
      | inl snap ↦ (let (a, b) = snapshot_refused kind p m snap (ground arith) in inl (snap, a, b))
      | inr rest ↦ inr (
          create_refused d kind p m (ground (arith, known_cases kind))
            (ground (arith, known_cases kind)))
    ]
  ]

  -- What the switch may make of a command: the call that its kind asks for, or a refusal. A known kind is
  -- refused for a bad snapshot name or for want of a container's password only.
  abbrev pub Answers : Dispatcher → Bytes → CommandPayload → Route → Type 0
  Answers d kind p (send c) = IsFor kind p c
  Answers d kind p (reject m) =
      (is_known kind ≡ false)
      ⊎ (((is_snapshot_action kind ≡ true)
            × (is_snapshot_name p.name ≡ false)
            × (m ≡ codes "invalid snapshot name: " ++ p.name))
          ⊎ ((str_eq kind action_lxc_create ≡ true)
              × (e : Failure) × (resolve_lxc_password hpke d p ≡ err e)
              × (m ≡ message e)))
