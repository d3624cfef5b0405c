-- ===== src/Commands/Whitelist/Reach.antt =====
-- Which paths the whitelist lets through.
pub mod Node
use proxmoxvue_agent.Base.{
  ◌≤◌, ◌≡◌, refl, ◌↔◌, ◌⊎◌, inl, inr, Bool, true, ◌||◌, List, [], ◌∷◌, ◌++◌, arith, ||-true, length,
  All, Bytes, codes, has_prefix, ℕ, append-nil, Option, some, zero, suc, sym, none,
}
use proxmoxvue_agent.Commands.Whitelist.{
  endpoint_allowed, any_match, read_endpoint_whitelist, guest, segment, nodes,
}
use proxmoxvue_agent.Pattern.{
  Piece, literal, matches, either, not_slash, one, some_of, repeat, is_digit,
}
use proxmoxvue_agent.Pattern.Meaning.{Matches, matches_sound, IsProper, matches_complete}
use mathlib.Core.List.{Memᴰ}
use mathlib.Core.Path.{subst}
use proxmoxvue_agent.Commands.Whitelist.Listed.{All-mem, at, mem_at, endpoint_allowed-Matches}
use proxmoxvue_agent.Commands.Whitelist.Readable.{
  IsSegment, IsNumber, of_cluster_read, of_node_read, of_task_read, of_guest_read, join, at_node,
  Readable, of_cluster, of_node, of_task, of_guest, of_file_systems, of_storage,
}
use proxmoxvue_agent.Commands.Whitelist.Sound.{whitelist-Readable}
use proxmoxvue_agent.Commands.Whitelist.Complete.{Readable-Matches}

-- A path is let through exactly if it is one of these: /api2/json/cluster/ with resources, status or tasks;
-- /api2/json/nodes/NODE/ with status, network, firewall/rules or tasks, with tasks/TASK/ and status or log,
-- with qemu/NUMBER/ or lxc/NUMBER/ and config, snapshot or feature, with qemu/NUMBER/agent/get-fsinfo, or
-- with storage/STORAGE/content. NODE, TASK and STORAGE are any texts that are not empty and have no slash,
-- NUMBER is one digit or more.
pub endpoint_allowed_iff : (path : Bytes) → (endpoint_allowed path ≡ true) ↔ Readable path
endpoint_allowed_iff path = (
  λ h.
      let (re, mem, m) = (endpoint_allowed-Matches path).0 h in
      All-mem (λ re. Matches re path → Readable path) read_endpoint_whitelist
        (whitelist-Readable path) mem m,
  λ h. (endpoint_allowed-Matches path).1 (Readable-Matches path h),
)
