-- ===== src/Runtime/ClusterWait.antt =====
-- internal/runtime/runtime.go: the wait for the cluster to show a command's effect, and what the
-- snapshot of the cluster is read for.
pub mod Matches
pub mod Fuel
use proxmoxvue_agent.Base.{
  ℕ, zero, suc, ◌+◌, ◌-◌, ◌*◌, ◌/◌, ◌%◌, ◌^◌, ◌≤◌, ◌<◌, ◌≡◌, ◌≢◌, refl, sym, ap, ◌∙◌, ◌↔◌, ◌⊎◌, inl,
  inr, Bool, true, false, not, ◌&&◌, ◌||◌, Option, none, some, List, [], ◌∷◌, ◌++◌, map, append-nil,
  append_assoc, arith, ltb, leb, ◌==◌, if◌then◌else◌, ==_iff, Bool-cases, Option-cases, &&-true,
  ||-true, length, take, drop, all, any, All, Bytes, codes, str_eq, str_eq_iff, str_eq→eq,
  str_eq_refl, is_empty, format_nat, if-cases, if-split,
}
use proxmoxvue_agent.Base.Program.{Program, ret, call, ◌>>◌, perform, Event, World, run}
use proxmoxvue_agent.Base.Int.{
  ℤ, pos, negsuc, is_zero, is_negative, is_positive, format_int, int_eq,
}
use proxmoxvue_agent.Base.Failure.{
  Failure, text, refresh_revoked, post_join_closed, wrap, message, is_revoked, Result, ok, err,
  wrap_err, ◌>>=◌,
}
use proxmoxvue_agent.Json.{
  Json, Items, nil, cons, null, object, array, string, number, member, end, RawMessage, members,
  decode_int, decode_string,
}
use proxmoxvue_agent.Proxmox.Client.{Exchange}
use proxmoxvue_agent.Proxmox.Cluster.{resources_request, cluster_resources}
use proxmoxvue_agent.Proxmox.Tasks.{Call, Reply, now, send, pause}
use proxmoxvue_agent.Commands.Calls.{Command}
use proxmoxvue_agent.Commands.Payload.{
  GuestRef, StateExpectation, expected_state_for, parse_guest_ref,
}

-- The elements of a value that is decoded into a slice of structs: `null` is an empty slice, and an
-- element that is `null` a struct with no fields set.
elements : {A : Type 0} → (RawMessage → Result A) → Items → Result (List A)
elements read nil = ok []
elements read (cons j rest) = do a ← read (some j); as_ ← elements read rest; ok (a ∷ as_)

unfoldable pub decode_slice : {A : Type 0} → (RawMessage → Result A) → RawMessage → Result (List A)
unfolding elements
decode_slice read none = err (text (codes "unexpected end of JSON input"))
decode_slice read (some null) = ok []
decode_slice read (some (array items)) = elements read items
decode_slice read (some other) =
    err (text (codes "json: cannot unmarshal into Go value of type []struct"))

-- What hasGuestState reads of an entry.
pub record GuestState : Type 0 where
  pub vmid : ℤ
  pub status : Bytes

guest_state : RawMessage → Result GuestState
unfolding members decode_int decode_string
guest_state raw = do
  ms ←
      members
        (codes "struct { VMID int \"json:\\\"vmid\\\"\"; Status string \"json:\\\"status\\\"\" }")
        raw
  vmid ← decode_int (codes ".") (codes "vmid") ms
  status ← decode_string (codes ".") (codes "status") ms
  ok (record { vmid = vmid; status = status })

-- hasGuestState(resources, vmid, expected)
unfoldable pub has_guest_state : RawMessage → ℤ → Bytes → Bool
unfolding decode_slice guest_state
has_guest_state resources vmid expected = elim (decode_slice guest_state resources) [
  | err e ↦ false
  | ok entries ↦ any (λ e. int_eq e.vmid vmid && str_eq e.status expected) entries
]

-- nodes, qemu, lxc and storage
pub record Counts : Type 0 where
  pub nodes : ℕ
  pub qemu : ℕ
  pub lxc : ℕ
  pub storage : ℕ

entry_type : RawMessage → Result Bytes
unfolding members decode_string
entry_type raw = do
  ms ← members (codes "struct { Type string \"json:\\\"type\\\"\" }") raw
  decode_string (codes ".") (codes "type") ms

count : Counts → Bytes → Counts
count c type =
    if str_eq type (codes "node")
    then record { nodes = c.nodes + 1; qemu = c.qemu; lxc = c.lxc; storage = c.storage }
    else if str_eq type (codes "qemu")
    then record { nodes = c.nodes; qemu = c.qemu + 1; lxc = c.lxc; storage = c.storage }
    else if str_eq type (codes "lxc")
    then record { nodes = c.nodes; qemu = c.qemu; lxc = c.lxc + 1; storage = c.storage }
    else if str_eq type (codes "storage")
    then record { nodes = c.nodes; qemu = c.qemu; lxc = c.lxc; storage = c.storage + 1 }
    else c

count_all : Counts → List Bytes → Counts
count_all c [] = c
count_all c (type ∷ rest) = count_all (count c type) rest

-- countSnapshotEntries(resources)
unfoldable pub count_snapshot_entries : RawMessage → Counts
unfolding decode_slice entry_type count_all count
count_snapshot_entries resources =
    let zeroes : Counts = record { nodes = 0; qemu = 0; lxc = 0; storage = 0 } in
    elim (decode_slice entry_type resources) [ err e ↦ zeroes | ok types ↦ count_all zeroes types ]

-- How a wait ends.
pub data Outcome : Type 0 where
  -- The kind leads to no state that is known, or the payload names no guest.
  nothing_to_wait_for : Outcome
  matched : Outcome
  timed_out : Outcome
  -- The context is done.
  cancelled : Outcome

-- None is out of fuel.
abbrev pub Wait : Type 0
Wait = Program Call Reply (Option Outcome)

-- err == nil && hasGuestState(resources, ref.VMID, expected)
unfoldable pub shows : ℤ → Bytes → Exchange → Bool
shows vmid expected x = elim (cluster_resources x) [
  | err e ↦ false
  | ok resources ↦ has_guest_state resources vmid expected
]

module _ (vmid : ℤ) (expected : Bytes) (deadline : ℕ) where
  unfoldable pub after_pause : Wait → Option Failure → Wait
  after_pause rest (some e) = ret (some cancelled)
  after_pause rest none = rest

  unfoldable pub after_answer : Wait → Exchange → Wait
  after_answer rest x =
      if shows vmid expected x then ret (some matched) else call pause (after_pause rest)

  unfoldable pub after_clock : Wait → ℕ → Wait
  after_clock rest time =
      if ltb time deadline
      then call (send resources_request) (after_answer rest)
      else ret (some timed_out)

  unfoldable pub poll : ℕ → Wait
  poll zero = ret none
  poll (suc n) = call now (after_clock (poll n))

unfoldable pub wait_for : ℤ → StateExpectation → ℕ → Wait
wait_for vmid e fuel = call now (λ start. poll vmid e.expected (start + e.timeout) fuel)

-- waitForClusterStateMatch(ctx, pve, cmd), with fuel for so many polls
unfoldable pub wait_for_cluster_state_match : Command → ℕ → Wait
wait_for_cluster_state_match cmd fuel = elim (expected_state_for cmd.kind) [
  | none ↦ ret (some nothing_to_wait_for)
  | some e ↦ elim (parse_guest_ref cmd.payload) [
    | none ↦ ret (some nothing_to_wait_for)
    | some guest ↦ wait_for guest.vmid e fuel
  ]
]
