-- ===== src/Commands/ReadTests.antt =====
-- The dispatcher of read commands of internal/commands at concrete values.
use proxmoxvue_agent.Commands.Whitelist.Reach.Node.{endpoint_allowed_any_node}
use proxmoxvue_agent.Base.{
  ◌≡◌, refl, ◌↔◌, true, Option, none, some, [], ◌∷◌, ◌++◌, arith, Bytes, codes, str_eq, trim_right,
}
use proxmoxvue_agent.Base.Program.{World, run}
use proxmoxvue_agent.Base.Int.{pos}
use proxmoxvue_agent.Base.Failure.{ok}
use mathlib.Core.List.{Permᴰ}
use proxmoxvue_agent.Json.{Members, member, end, object, number}
use proxmoxvue_agent.Commands.ReadDispatcher.{
  ReadCommand, Call, Reply, now, claim_read_command, complete_read_command, get_raw, handle,
}
use proxmoxvue_agent.Commands.ReadDispatcher.Outcome.{Story, read-Story}
use proxmoxvue_agent.Commands.Whitelist.{endpoint_allowed}
use proxmoxvue_agent.Commands.Whitelist.Reach.{endpoint_allowed_iff}
use proxmoxvue_agent.Commands.Whitelist.Readable.{Readable, at_node}
use proxmoxvue_agent.Commands.BuildPath.{entries, build_from}
use proxmoxvue_agent.Commands.BuildPath.Order.{build_from-perm}
use proxmoxvue_agent.Url.{query_escape}

abbrev with_decimals : Bytes → Option Bytes
with_decimals literal = some (literal ++ codes ".000000")

abbrev read_tasks : ReadCommand
read_tasks = record {
  id = pos 9;
  endpoint = codes "/api2/json/cluster/tasks";
  params = some (object (member (codes "limit") (number (codes "50")) end));
  expires_at = 0;
}

abbrev fair : World Call Reply
fair past now = 20
fair past (claim_read_command id) = ok true
fair past (complete_read_command id status result err_msg) = none
fair past (get_raw path timeout) = ok (codes "{}")

read-Story_example :
    let (r, t) = run fair [] (handle with_decimals read_tasks) in Story with_decimals read_tasks r t
read-Story_example = read-Story with_decimals read_tasks fair

allowed : endpoint_allowed (codes "/api2/json/cluster/tasks") ≡ true
unfolding endpoint_allowed
allowed = refl

endpoint_allowed_iff_example :
    (endpoint_allowed (codes "/api2/json/cluster/tasks") ≡ true)
    ↔ Readable (codes "/api2/json/cluster/tasks")
endpoint_allowed_iff_example = endpoint_allowed_iff (codes "/api2/json/cluster/tasks")

-- The node is "..", which takes a reader of paths out of /nodes/.
endpoint_allowed_any_node_example :
    endpoint_allowed (at_node (codes "pve") (codes "storage/local/content"))
    ≡ endpoint_allowed (at_node (codes "..") (codes "storage/local/content"))
endpoint_allowed_any_node_example =
    endpoint_allowed_any_node (codes "pve") (codes "..") (codes "storage/local/content")
      (omega arith, (refl, (refl, (refl, tt)))) (omega arith, (refl, (refl, tt)))

abbrev two_members : Members
two_members =
    member (codes "limit") (number (codes "50")) (member (codes "since") (number (codes "1")) end)

in_order :
    build_from with_decimals (codes "/api2/json/cluster/tasks") (entries two_members)
    ≡ ok (codes "/api2/json/cluster/tasks?limit=50&since=1")
unfolding build_from entries trim_right query_escape
in_order = refl

build_from-perm_example :
    build_from with_decimals
      (codes "/api2/json/cluster/tasks")
      ((codes "since", number (codes "1")) ∷ (codes "limit", number (codes "50")) ∷ [])
    ≡ ok (codes "/api2/json/cluster/tasks?limit=50&since=1")
unfolding entries str_eq
build_from-perm_example =
    build_from-perm with_decimals two_members (codes "/api2/json/cluster/tasks")
      (codes "/api2/json/cluster/tasks?limit=50&since=1") (Permᴰ.swap refl refl) in_order
