-- ===== src/Supabase/Commands.antt =====
-- internal/supabase/commands.go, read_commands.go, clusters.go, rest.go: the operations on the rows of
-- commands, read_commands, clusters and status_snapshots. json.Marshal writes the keys of a map in
-- their order.
pub mod Claim
pub mod Snapshot
pub mod Bytea
use proxmoxvue_agent.Base.{
  ℕ, zero, suc, ◌+◌, ◌-◌, ◌*◌, ◌/◌, ◌%◌, ◌^◌, ◌≤◌, ◌<◌, ◌≡◌, ◌≢◌, refl, sym, ap, ◌∙◌, ◌↔◌, ◌⊎◌, inl,
  inr, Bool, true, false, not, ◌&&◌, ◌||◌, Option, none, some, List, [], ◌∷◌, ◌++◌, map, append-nil,
  append_assoc, arith, ltb, leb, ◌==◌, if◌then◌else◌, ==_iff, Bool-cases, Option-cases, &&-true,
  ||-true, length, take, drop, all, any, All, Bytes, codes, str_eq, str_eq_iff, str_eq→eq,
  str_eq_refl, is_empty, format_nat, if-cases, if-split,
}
use proxmoxvue_agent.Base.Program.{Program, ret, call, ◌>>=◌, ◌>>◌, perform, Event, World, run}
use proxmoxvue_agent.Base.Int.{
  ℤ, pos, negsuc, is_zero, is_negative, is_positive, format_int, int_eq,
}
use proxmoxvue_agent.Base.Failure.{
  Failure, text, refresh_revoked, post_join_closed, wrap, message, is_revoked, Result, ok, err,
  wrap_err,
}
use proxmoxvue_agent.Supabase.Session.{Session, Method, Body, now}
use proxmoxvue_agent.Supabase.Rest.{
  next, done, map_result, patch_row, patch_row_returning, get_rows, post_row,
}
use proxmoxvue_agent.Json.{
  Json, Items, Members, nil, cons, end, member, object, string, null, RawMessage,
}

-- len(returned) > 0
abbrev pub has_rows : Items → Bool
has_rows nil = false
has_rows (cons row rest) = true

-- The rows of a table with this id: /TABLE?id=eq.ID
pub row_path : Bytes → ℤ → Bytes
row_path table id = codes "/" ++ table ++ codes "?id=eq." ++ format_int id

-- hexdigits[n], for n below 16
hex_digit : ℕ → ℕ
hex_digit n = if ltb n 10 then b'0' + n else b'a' + (n - 10)

hex_digits : Bytes → Bytes
hex_digits [] = []
hex_digits (v ∷ rest) = hex_digit (v / 16) ∷ hex_digit (v % 16) ∷ hex_digits rest

-- bytesToBytea(b)
unfoldable pub bytes_to_bytea : Bytes → Bytes
unfolding hex_digits hex_digit
bytes_to_bytea b = b'\\' ∷ b'x' ∷ hex_digits b

-- The error of a row operation with a longer message.
pub wrapped : Bytes → Result {0} Unit → Result {0} Unit
wrapped prefix (err e) = err (wrap prefix e)
wrapped prefix (ok u) = ok u

-- `stamp` is time.Time.UTC().Format(time.RFC3339Nano), `persists` is false for a nil persist function.
module _ (stamp : ℕ → Bytes) (persists : Bool) where
  pub claim_body : ℕ → Json
  claim_body time = object (
      member (codes "claimed_at") (string (stamp time))
        (member (codes "status") (string (codes "claimed")) end))

  -- ClaimCommand(ctx, id) for the table commands, ClaimReadCommand for read_commands
  unfoldable pub claim_row : Bytes → ℤ → Session → Method Bool
  claim_row table id s = do
    time ← perform now
    let path = row_path table id ++ codes "&status=eq.pending"
    next (patch_row_returning persists path (claim_body time) s)
        λ r s'. done (map_result (λ rows. ok (has_rows rows)) r) s'

  -- ClaimCommand(ctx, id)
  unfoldable pub claim_command : ℤ → Session → Method Bool
  claim_command = claim_row (codes "commands")

  -- ClaimReadCommand(ctx, id)
  unfoldable pub claim_read_command : ℤ → Session → Method Bool
  claim_read_command = claim_row (codes "read_commands")

  -- CompleteCommand(ctx, id, status, result)
  unfoldable pub complete_command : ℤ → Bytes → Json → Session → Method Unit
  complete_command id status result s = do
    time ← perform now
    let body = object (
        member (codes "completed_at") (string (stamp time))
          (member (codes "result") result (member (codes "status") (string status) end)))
    patch_row persists (row_path (codes "commands") id) body s

  -- if result != nil { body["result"] = result }
  with_result : RawMessage → Members → Members
  with_result none rest = rest
  with_result (some result) rest = member (codes "result") result rest

  -- if errMsg != "" { body["error"] = errMsg }
  with_error : Bytes → Members → Members
  with_error message rest =
      if not (is_empty message) then member (codes "error") (string message) rest else rest

  -- CompleteReadCommand(ctx, id, status, result, errMsg)
  unfoldable pub complete_read_command : ℤ → Bytes → RawMessage → Bytes → Session → Method Unit
  unfolding with_result with_error
  complete_read_command id status result message s = do
    time ← perform now
    let body = object (
        member (codes "completed_at") (string (stamp time))
          (with_error message (with_result result (member (codes "status") (string status) end))))
    patch_row persists (row_path (codes "read_commands") id) body s

  -- UploadClusterPublicKey(ctx, clusterID, publicKey)
  unfoldable pub upload_cluster_public_key : Bytes → Bytes → Session → Method Unit
  unfolding wrapped
  upload_cluster_public_key cluster_id public_key s =
      next
        (patch_row persists (codes "/clusters?id=eq." ++ cluster_id)
          (object (member (codes "public_key") (string (bytes_to_bytea public_key)) end)) s)
        λ r s'. done (wrapped (codes "upload cluster public_key: ") r) s'

  -- PushSnapshot(ctx, clusterID, payload)
  unfoldable pub push_snapshot : Bytes → Json → Session → Method Unit
  unfolding wrapped
  push_snapshot cluster_id payload s =
      next
        (post_row persists (codes "/status_snapshots")
          (object (
            member (codes "cluster_id") (string cluster_id) (member (codes "payload") payload end)))
          s)
        λ r s'. done (wrapped (codes "push snapshot: ") r) s'
