-- ===== src/Commands/Whitelist.antt =====
-- internal/commands/read_dispatcher.go: readEndpointWhitelist and endpointAllowed.
pub mod Listed
pub mod Readable
pub mod Sound
pub mod Complete
pub mod Reach
use proxmoxvue_agent.Base.{
  ℕ, zero, suc, ◌+◌, ◌-◌, ◌*◌, ◌/◌, ◌%◌, ◌^◌, ◌≤◌, ◌<◌, ◌≡◌, ◌≢◌, refl, sym, ap, ◌∙◌, ◌↔◌, ◌⊎◌, inl,
  inr, Bool, true, false, not, ◌&&◌, ◌||◌, Option, none, some, List, [], ◌∷◌, ◌++◌, map, append-nil,
  append_assoc, arith, ltb, leb, ◌==◌, if◌then◌else◌, ==_iff, Bool-cases, Option-cases, &&-true,
  ||-true, length, take, drop, all, any, All, Bytes, codes, str_eq, str_eq_iff, str_eq→eq,
  str_eq_refl, is_empty, format_nat, if-cases, if-split,
}
use proxmoxvue_agent.Pattern.{Piece, matches, literal, some_of, either, is_digit, not_slash}

abbrev segment : Piece
segment = some_of not_slash

abbrev nodes : Piece
nodes = literal (codes "/api2/json/nodes/")

-- (qemu|lxc)/\d+ between two slashes
abbrev guest : List Piece → List Piece
guest rest =
    nodes
    ∷ segment
    ∷ literal (codes "/")
    ∷ either (codes "qemu") (codes "lxc")
    ∷ literal (codes "/")
    ∷ some_of is_digit
    ∷ rest

abbrev below_node : Bytes → List Piece
below_node s = nodes ∷ segment ∷ literal s ∷ []

unfoldable pub read_endpoint_whitelist : List (List Piece)
read_endpoint_whitelist =
    (literal (codes "/api2/json/cluster/resources") ∷ [])
    ∷ (literal (codes "/api2/json/cluster/status") ∷ [])
    ∷ (literal (codes "/api2/json/cluster/tasks") ∷ [])
    ∷ below_node (codes "/status")
    ∷ below_node (codes "/network")
    ∷ below_node (codes "/firewall/rules")
    ∷ below_node (codes "/tasks")
    ∷ (nodes ∷ segment ∷ literal (codes "/tasks/") ∷ segment ∷ literal (codes "/status") ∷ [])
    ∷ (nodes ∷ segment ∷ literal (codes "/tasks/") ∷ segment ∷ literal (codes "/log") ∷ [])
    ∷ guest (literal (codes "/config") ∷ [])
    ∷ guest (literal (codes "/snapshot") ∷ [])
    ∷ guest (literal (codes "/feature") ∷ [])
    ∷ (nodes
        ∷ segment
        ∷ literal (codes "/qemu/")
        ∷ some_of is_digit
        ∷ literal (codes "/agent/get-fsinfo")
        ∷ [])
    ∷ (nodes ∷ segment ∷ literal (codes "/storage/") ∷ segment ∷ literal (codes "/content") ∷ [])
    ∷ []

unfoldable pub any_match : List (List Piece) → Bytes → Bool
unfolding matches
any_match [] path = false
any_match (re ∷ rest) path = matches re path || any_match rest path

unfoldable pub endpoint_allowed : Bytes → Bool
unfolding any_match read_endpoint_whitelist
endpoint_allowed path = any_match read_endpoint_whitelist path

admits_config : endpoint_allowed (codes "/api2/json/nodes/pve/qemu/100/config") ≡ true
unfolding endpoint_allowed
admits_config = refl

refuses_users : endpoint_allowed (codes "/api2/json/access/users") ≡ false
unfolding endpoint_allowed
refuses_users = refl

refuses_reboot : endpoint_allowed (codes "/api2/json/nodes/pve/qemu/100/status/reboot") ≡ false
unfolding endpoint_allowed
refuses_reboot = refl
