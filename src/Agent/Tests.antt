-- ===== src/Agent/Tests.antt =====
-- The dispatcher on the wire at concrete values.
use proxmoxvue_agent.Base.{ℕ, ◌^◌, none, some, [], if◌then◌else◌, Bytes, codes, str_eq}
use proxmoxvue_agent.Base.Program.{World, run}
use proxmoxvue_agent.Base.Int.{pos}
use proxmoxvue_agent.Base.Failure.{ok}
use proxmoxvue_agent.Base.Compose.{Refines}
use proxmoxvue_agent.Json.{member, end, string, object, array, number, cons, nil}
use proxmoxvue_agent.Crypto.{Hpke}
use proxmoxvue_agent.Commands.Calls.{Command}
use proxmoxvue_agent.Commands.Route.{new}
use proxmoxvue_agent.Commands.Dispatcher.Outcome.{Story}
use proxmoxvue_agent.Supabase.Session
use proxmoxvue_agent.Supabase.Session.{Session, Body}
use proxmoxvue_agent.Proxmox.Tasks.{send, pause}
use proxmoxvue_agent.Proxmox.Tasks
use proxmoxvue_agent.Proxmox.Client
use proxmoxvue_agent.Agent.{Call, Reply, now, supabase, proxmox, write_heartbeat, handle_on_wire}
use proxmoxvue_agent.Agent.Pipeline.{handle_command}
use proxmoxvue_agent.Agent.Pipeline.Order.{Handled, handle_command-Handled}
use proxmoxvue_agent.Agent.Refinement.{Exhausted, Does, handle_on_wire-Refines}

-- A scheme with no secrecy.
abbrev plain : Hpke
plain = record {
  PrivateKey = Bytes;
  Receiver = Bytes;
  Opener = Bytes;
  unmarshal_private_key = λ key. ok key;
  new_receiver = λ key. ok key;
  setup = λ key encap. ok encap;
  open_sealed = λ opener sealed. ok sealed;
}

abbrev start_guest : Command
start_guest = record {
  id = pos 7;
  kind = codes "start";
  payload = some (
      object (
        member (codes "node") (string (codes "pve")) (
          member (codes "guest_kind") (string (codes "qemu"))
            (member (codes "vmid") (number (codes "100")) end))));
  expires_at = 0;
}

abbrev signed_in : Session
signed_in = record { access_token = codes "a0"; expires_at = 10 ^ 20; refresh_token = codes "r0" }

abbrev no_stamp : ℕ → Bytes
no_stamp time = codes "2026-01-01T00:00:00Z"

abbrev no_text : ℕ → Bytes
no_text n = codes "1s"

abbrev one_row : Body
one_row = record { raw = []; json = ok (some (array (cons (object end) nil))) }

-- A task's UPID, and its status, in one answer.
abbrev stopped : Client.Exchange
stopped = Client.response 200 [] (
    ok (
      some (
        object (
          member (codes "data")
            (object (
              member (codes "status") (string (codes "stopped"))
                (member (codes "exitstatus") (string (codes "OK")) end)))
            end))))

abbrev upid_only : Client.Exchange
upid_only =
    Client.response 200 []
      (ok (some (object (member (codes "data") (string (codes "UPID:1")) end))))

-- Every row is there, and every task ends at once.
abbrev outside : World Call Reply
outside past now = 10 ^ 9
outside past (supabase Session.now) = 10 ^ 9
outside past (supabase (Session.post_token token)) = Session.response 400 one_row
outside past (supabase (Session.persist token)) = none
outside past (supabase (Session.attempt request token)) = Session.response 200 one_row
outside past (proxmox Tasks.now) = 10 ^ 9
outside past (proxmox (send request)) =
    if str_eq request.method (codes "POST") then upid_only else stopped
outside past (proxmox pause) = none
outside past (write_heartbeat path) = none

handle_on_wire-Refines_example :
    let (out, u) =
      run outside [] (handle_on_wire no_stamp no_text 4 plain new start_guest signed_in) in
    Refines
      (Exhausted no_stamp no_text 4)
      (Does no_stamp no_text 4)
      (Story plain new start_guest)
      signed_in
      []
      out
      u
handle_on_wire-Refines_example =
    handle_on_wire-Refines no_stamp no_text 4 plain new start_guest signed_in outside

handle_command-Handled_example :
    let (out, u) = run outside [] (
      handle_command no_stamp no_text
        (codes "c1")
        (codes ".last-poll")
        plain
        new
        start_guest
        4
        signed_in) in
    Handled no_stamp no_text
      (codes "c1")
      (codes ".last-poll")
      plain
      new
      start_guest
      4
      signed_in
      out
      u
handle_command-Handled_example =
    handle_command-Handled no_stamp no_text (codes "c1") (codes ".last-poll") plain new start_guest
      4 signed_in outside
