-- ===== src/Proxmox/Tests.antt =====
-- The requests and the waits of internal/proxmox at concrete values.
use proxmoxvue_agent.Base.{
  ℕ, ◌*◌, ◌^◌, ◌≡◌, refl, ◌↔◌, true, none, some, [], ◌++◌, arith, Bytes, codes,
}
use proxmoxvue_agent.Base.Program.{World, run}
use proxmoxvue_agent.Base.Int.{pos, format_int}
use proxmoxvue_agent.Base.Failure.{Result, ok}
use proxmoxvue_agent.Json.{member, end, object, string}
use proxmoxvue_agent.Commands.Calls.{ActorCall, perform_action, delete_snapshot, rollback_snapshot}
use proxmoxvue_agent.Proxmox.Client.{Exchange, response, delete, post}
use proxmoxvue_agent.Proxmox.Requests.{started, request_of}
use proxmoxvue_agent.Proxmox.Requests.Start.{Started, started-Started, request_of-snapshot_name}
use proxmoxvue_agent.Proxmox.SnapshotName.{is_snapshot_name, is_snapshot_name_iff, IsSnapshotName}
use proxmoxvue_agent.Proxmox.Tasks.{
  Call, Reply, now, send, pause, poll_interval, await_task_completion,
}
use proxmoxvue_agent.Proxmox.Tasks.Wait.{
  IsPaced, pauses, Waited, await_task_completion-ends, await_task_completion-Waited,
}
use proxmoxvue_agent.Commands.Calls.{TaskStatus}
use proxmoxvue_agent.Base.Ledger.{spent}

name_passes : is_snapshot_name (codes "before-upgrade") ≡ true
unfolding is_snapshot_name
name_passes = refl

is_snapshot_name_iff_example :
    (is_snapshot_name (codes "before-upgrade") ≡ true) ↔ IsSnapshotName (codes "before-upgrade")
is_snapshot_name_iff_example = is_snapshot_name_iff (codes "before-upgrade")

request_of-snapshot_name_example :
    let base = codes "/api2/json/nodes/pve/qemu/100/snapshot/" in
    (request_of (delete_snapshot (codes "qemu") (codes "pve") (pos 100) (codes "before-upgrade"))
      ≡ delete (base ++ codes "before-upgrade"))
    × (request_of
          (rollback_snapshot (codes "qemu") (codes "pve") (pos 100) (codes "before-upgrade"))
        ≡ post (base ++ codes "before-upgrade" ++ codes "/rollback"))
unfolding format_int
request_of-snapshot_name_example =
    request_of-snapshot_name (codes "qemu") (codes "pve") (pos 100) (codes "before-upgrade")
      name_passes

abbrev start_call : ActorCall
start_call = perform_action (codes "qemu") (codes "pve") (pos 100) (codes "start")

abbrev start_answer : Exchange
start_answer =
    response 200 [] (ok (some (object (member (codes "data") (string (codes "UPID:1")) end))))

start_accepted : started start_call start_answer ≡ ok (codes "UPID:1")
unfolding started
start_accepted = refl

started-Started_example :
    (started start_call start_answer ≡ ok (codes "UPID:1")) ↔ Started (codes "UPID:1") start_answer
started-Started_example = started-Started start_call (codes "UPID:1") start_answer

-- An answer with no UPID counts all the same.
empty_upid : started start_call (response 200 [] (ok (some (object end)))) ≡ ok []
unfolding started
empty_upid = refl

-- A task that never ends, on a clock that moves only while the agent sleeps.
abbrev endless : World Call Reply
endless past now = poll_interval * spent pauses past
endless past (send request) = response 200 [] (
    ok (
      some (
        object (
          member (codes "data") (object (member (codes "status") (string (codes "running")) end))
            end))))
endless past pause = none

endless-IsPaced : IsPaced endless
endless-IsPaced past = omega arith

abbrev no_text : ℕ → Bytes
no_text n = codes "1s"

await_task_completion-ends_example :
    (r : Result TaskStatus) × ((run endless []
        (await_task_completion no_text (codes "pve") (codes "UPID:1") (10 ^ 9) 4)).0
      ≡ some r)
await_task_completion-ends_example =
    await_task_completion-ends no_text (codes "pve") (codes "UPID:1") (10 ^ 9) endless
      endless-IsPaced 4 (omega arith)

await_task_completion-Waited_example :
    let (out, t) =
      run endless [] (await_task_completion no_text (codes "pve") (codes "UPID:1") (10 ^ 9) 4) in
    Waited no_text (codes "pve") (codes "UPID:1") (10 ^ 9) out t
await_task_completion-Waited_example =
    await_task_completion-Waited no_text (codes "pve") (codes "UPID:1") (10 ^ 9) endless 4
