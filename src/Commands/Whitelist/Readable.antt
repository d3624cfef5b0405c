-- ===== src/Commands/Whitelist/Readable.antt =====
-- What the whitelist is meant to let through, as texts.
use proxmoxvue_agent.Base.{◌≤◌, ◌≡◌, ◌⊎◌, true, List, [], ◌∷◌, ◌++◌, length, All, Bytes, codes}
use proxmoxvue_agent.Pattern.{not_slash, is_digit}
use mathlib.Core.List.{Memᴰ}

-- What can be read of Proxmox, as texts: a segment is a text that is not empty and has no slash, a number
-- one of digits.
abbrev pub IsSegment : Bytes → Type 0
IsSegment s = (1 ≤ length s) × All (λ c. not_slash c ≡ true) s

abbrev pub IsNumber : Bytes → Type 0
IsNumber s = (1 ≤ length s) × All (λ c. is_digit c ≡ true) s

abbrev pub of_cluster_read : List Bytes
of_cluster_read = codes "resources" ∷ codes "status" ∷ codes "tasks" ∷ []

abbrev pub of_node_read : List Bytes
of_node_read = codes "status" ∷ codes "network" ∷ codes "firewall/rules" ∷ codes "tasks" ∷ []

abbrev pub of_task_read : List Bytes
of_task_read = codes "status" ∷ codes "log" ∷ []

abbrev pub of_guest_read : List Bytes
of_guest_read = codes "config" ∷ codes "snapshot" ∷ codes "feature" ∷ []

-- Two parts of a path with a slash between them.
abbrev pub join : Bytes → Bytes → Bytes
join a b = a ++ (codes "/" ++ b)

abbrev pub at_node : Bytes → Bytes → Bytes
at_node node rest = codes "/api2/json/nodes/" ++ join node rest

pub data Readable (path : Bytes) : Type 0 where
  of_cluster :
      (leaf : Bytes)
      → Memᴰ leaf of_cluster_read
      → path ≡ codes "/api2/json/cluster/" ++ leaf
      → Readable path
  of_node :
      (node leaf : Bytes)
      → IsSegment node
      → Memᴰ leaf of_node_read
      → path ≡ at_node node leaf
      → Readable path
  of_task :
      (node task leaf : Bytes)
      → IsSegment node
      → IsSegment task
      → Memᴰ leaf of_task_read
      → path ≡ at_node node (join (codes "tasks") (join task leaf))
      → Readable path
  of_guest :
      (node kind number leaf : Bytes)
      → IsSegment node
      → (kind ≡ codes "qemu") ⊎ (kind ≡ codes "lxc")
      → IsNumber number
      → Memᴰ leaf of_guest_read
      → path ≡ at_node node (join kind (join number leaf))
      → Readable path
  of_file_systems :
      (node number : Bytes)
      → IsSegment node
      → IsNumber number
      → path ≡ at_node node (join (codes "qemu") (join number (codes "agent/get-fsinfo")))
      → Readable path
  of_storage :
      (node storage : Bytes)
      → IsSegment node
      → IsSegment storage
      → path ≡ at_node node (join (codes "storage") (join storage (codes "content")))
      → Readable path
