-- ===== src/Proxmox/Cluster.antt =====
-- internal/proxmox/client.go: Version and ClusterResources.
use proxmoxvue_agent.Base.{Option, none, some, if◌then◌else◌, Bytes, codes, str_eq}
use proxmoxvue_agent.Base.Failure.{text, Result, ok, err, wrap_err, ◌>>=◌}
use proxmoxvue_agent.Json.{Json, RawMessage, Members, end, member, object, members, find}
use proxmoxvue_agent.Proxmox.Client.{Request, Exchange, get, decoded}
use proxmoxvue_agent.Base.{to_lower}

-- The value that a field of type json.RawMessage gets, `null` included.
unfoldable pub find_raw : Bytes → Members → RawMessage
find_raw name end = none
find_raw name (member key value rest) = elim (find_raw name rest) [
  | none ↦ if str_eq (to_lower key) name then some value else none
  | some found ↦ some found
]

abbrev pub version_request : Request
version_request = get (codes "/api2/json/version")

-- The member `data` as a map
data_map : Option Json → Result Members
data_map none = ok end
data_map (some (object ms)) = ok ms
data_map (some other) = err (
    text
      (codes "json: cannot unmarshal into Go struct field .data of type map[string]interface {}"))

decode_version : RawMessage → Result Members
unfolding members find data_map
decode_version raw = do
  ms ← members (codes "struct { Data map[string]interface {} \"json:\\\"data\\\"\" }") raw
  data_map (find (codes "data") ms)

-- Version(ctx): what it makes of the answer
unfoldable pub version : Exchange → Result Members
unfolding decode_version
version x = wrap_err (codes "proxmox version: ") (decoded decode_version x)

abbrev pub resources_request : Request
resources_request = get (codes "/api2/json/cluster/resources")

decode_resources : RawMessage → Result RawMessage
unfolding members find_raw
decode_resources raw = do
  ms ← members (codes "struct { Data json.RawMessage \"json:\\\"data\\\"\" }") raw
  ok (find_raw (codes "data") ms)

-- ClusterResources(ctx): what it makes of the answer
unfoldable pub cluster_resources : Exchange → Result RawMessage
unfolding decode_resources
cluster_resources x = wrap_err (codes "proxmox cluster/resources: ") (decoded decode_resources x)
