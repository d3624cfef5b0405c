-- ===== src/Commands/Tests.antt =====
-- The dispatcher of internal/commands at concrete values.
use proxmoxvue_agent.Base.{
  ℕ, ◌≤◌, ◌≡◌, refl, ◌⊎◌, true, false, none, some, List, [], ◌∷◌, ◌++◌, Bytes, codes, str_eq,
}
use proxmoxvue_agent.Base.Program.{Event, World, run}
use proxmoxvue_agent.Base.Int.{pos}
use proxmoxvue_agent.Base.Failure.{Failure, message, ok, err}
use proxmoxvue_agent.Json.{member, end, object, string, number}
use proxmoxvue_agent.Crypto.{Hpke}
use proxmoxvue_agent.Commands.Calls.{
  Command, Call, Reply, now, claim_command, complete_command, actor, await_task_completion,
}
use proxmoxvue_agent.Commands.Payload.{CommandPayload}
use proxmoxvue_agent.Commands.Route.{route_snapshot, new, route, reject}
use proxmoxvue_agent.Commands.Route.Shape.{route-known}
use proxmoxvue_agent.Commands.Dispatcher.{handle, handle_live, after_claim}
use proxmoxvue_agent.Commands.Dispatcher.Accounts.{
  won, acts, completes, HandlesCommand, tasks-le-claims,
}
use proxmoxvue_agent.Commands.Dispatcher.Outcome.{Story, handle-Story}
use proxmoxvue_agent.Base.Ledger.{spent, earned}
use proxmoxvue_agent.Base.Ledger.Pool.{Reach, idle, start, move, here, there}
use proxmoxvue_agent.Proxmox.Action.{
  is_known, is_power_action, is_snapshot_action, action_lxc_create,
}
use proxmoxvue_agent.Proxmox.SnapshotName.{is_snapshot_name}
use proxmoxvue_agent.Commands.Route.{resolve_lxc_password}

-- A scheme with no secrecy.
abbrev plain : Hpke
plain = record {
  PrivateKey = Bytes;
  Receiver = Bytes;
  Opener = Bytes;
  unmarshal_private_key = λ key. ok key;
  new_receiver = λ key. ok key;
  setup = λ key encap. ok encap;
  open_sealed = λ opener sealed. ok sealed;
}

abbrev start_guest : Command
start_guest = record {
  id = pos 7;
  kind = codes "start";
  payload = some (
      object (
        member (codes "node") (string (codes "pve")) (
          member (codes "guest_kind") (string (codes "qemu"))
            (member (codes "vmid") (number (codes "100")) end))));
  expires_at = 50;
}

-- A backend and a cluster on which all goes well, at a time.
abbrev fair : ℕ → World Call Reply
fair time past now = time
fair time past (claim_command id) = ok true
fair time past (complete_command id status result) = none
fair time past (actor c) = ok (codes "UPID:1")
fair time past (await_task_completion node upid timeout) =
    ok (record { upid = upid; is_done = true; exit_status = codes "OK" })

handle-Story_example :
    let (r, t) = run (fair 20) [] (handle plain new start_guest) in Story plain new start_guest r t
handle-Story_example = handle-Story plain new start_guest (fair 20)

abbrev undated : Command
undated = record { id = pos 7; kind = codes "start"; payload = none; expires_at = 0 }

-- Two handlers of one command claim it, and the first of them wins.
abbrev raced : List (Event Call Reply)
raced = (claim_command (pos 7), ok false) ∷ (claim_command (pos 7), ok true) ∷ []

race :
    Reach
      (HandlesCommand plain (pos 7))
      raced
      (after_claim plain new undated (ok true) ∷ after_claim plain new undated (ok false) ∷ [])
unfolding handle handle_live
race =
    let handles : HandlesCommand plain (pos 7) (handle plain new undated) =
      (new, undated, refl, refl) in
    move
      (move
        (start (handle plain new undated) handles (start (handle plain new undated) handles idle))
        (here (ok true)))
      (there (here (ok false)))

tasks-le-claims_example :
    (spent acts raced ≤ earned won raced) × (spent completes raced ≤ earned won raced)
tasks-le-claims_example = tasks-le-claims plain (pos 7) race

abbrev snapshot_payload : Bytes → CommandPayload
snapshot_payload name = record {
  guest_kind = codes "qemu";
  node = codes "pve";
  vmid = pos 100;
  name = name;
  description = [];
  include_vm_state = false;
  cores = pos 0;
  memory_mb = pos 0;
  disk_storage = [];
  disk_size_gb = pos 0;
  network_bridge = [];
  hostname = [];
  os_template = [];
  password = [];
  password_enc = [];
  unprivileged = false;
  destroy_disks = false;
  purge_backups = false;
}

snapshot_known : is_known (codes "snapshot.delete") ≡ true
unfolding is_known is_power_action str_eq is_snapshot_action
snapshot_known = refl

bad_name_refused :
    route plain new (codes "snapshot.delete") (snapshot_payload (codes "a/b"))
    ≡ reject (codes "invalid snapshot name: a/b")
unfolding route is_power_action str_eq is_snapshot_action route_snapshot is_snapshot_name
bad_name_refused = refl

route-known_example :
    ((is_snapshot_action (codes "snapshot.delete") ≡ true)
      × (is_snapshot_name (codes "a/b") ≡ false)
      × (codes "invalid snapshot name: a/b" ≡ codes "invalid snapshot name: " ++ codes "a/b"))
    ⊎ ((str_eq (codes "snapshot.delete") action_lxc_create ≡ true)
        × (e : Failure) × (resolve_lxc_password plain new (snapshot_payload (codes "a/b")) ≡ err e)
        × (codes "invalid snapshot name: a/b" ≡ message e))
route-known_example =
    route-known plain new (codes "snapshot.delete") (snapshot_payload (codes "a/b")) snapshot_known
      bad_name_refused
