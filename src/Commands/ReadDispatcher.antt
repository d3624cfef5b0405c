-- ===== src/Commands/ReadDispatcher.antt =====
-- internal/commands/read_dispatcher.go: ReadDispatcher.Handle.
pub mod Outcome
use proxmoxvue_agent.Base.{
  ℕ, zero, suc, ◌+◌, ◌-◌, ◌*◌, ◌/◌, ◌%◌, ◌^◌, ◌≤◌, ◌<◌, ◌≡◌, ◌≢◌, refl, sym, ap, ◌∙◌, ◌↔◌, ◌⊎◌, inl,
  inr, Bool, true, false, not, ◌&&◌, ◌||◌, Option, none, some, List, [], ◌∷◌, ◌++◌, map, append-nil,
  append_assoc, arith, ltb, leb, ◌==◌, if◌then◌else◌, ==_iff, Bool-cases, Option-cases, &&-true,
  ||-true, length, take, drop, all, any, All, Bytes, codes, str_eq, str_eq_iff, str_eq→eq,
  str_eq_refl, is_empty, format_nat, if-cases, if-split,
}
use proxmoxvue_agent.Base.Program.{Program, ret, call, ◌>>=◌, ◌>>◌, perform, Event, World, run}
use proxmoxvue_agent.Base.Int.{
  ℤ, pos, negsuc, is_zero, is_negative, is_positive, format_int, int_eq,
}
use proxmoxvue_agent.Base.Failure.{
  Failure, text, refresh_revoked, post_join_closed, wrap, message, is_revoked, Result, ok, err,
  wrap_err,
}
use proxmoxvue_agent.Commands.Whitelist.{endpoint_allowed}
use proxmoxvue_agent.Json.{RawMessage}
use proxmoxvue_agent.Commands.Payload.{second}
use proxmoxvue_agent.Commands.BuildPath.{build_path}

-- The fields of supabase.ReadCommand that Handle reads; the time is in nanoseconds since Go's zero
-- time.
pub record ReadCommand : Type 0 where
  pub id : ℤ
  pub endpoint : Bytes
  pub params : RawMessage
  pub expires_at : ℕ

-- The interfaces ProxmoxReader and ReadCommandStore, and the clock.
pub data Call : Type 0 where
  now : Call
  claim_read_command : (id : ℤ) → Call
  -- A result of nil is none.
  complete_read_command :
      (id : ℤ) → (status : Bytes) → (result : Option Bytes) → (err_msg : Bytes) → Call
  -- Under a deadline of `timeout` nanoseconds.
  get_raw : (path : Bytes) → (timeout : ℕ) → Call

abbrev pub Reply : Call → Type 0
Reply now = ℕ
Reply (claim_read_command id) = Result Bool
Reply (complete_read_command id status result err_msg) = Option Failure
Reply (get_raw path timeout) = Result Bytes

abbrev pub Reader : Type 0
Reader = Program Call Reply (Option Failure)

-- NewReadDispatcher: Timeout, in nanoseconds
abbrev pub read_timeout : ℕ
read_timeout = 10 * second

abbrev pub fail : ℤ → Bytes → Reader
fail id err_msg = perform (complete_read_command id (codes "failed") none err_msg)

unfoldable pub after_get : ℤ → Result Bytes → Reader
after_get id (err e) = fail id (message e)
after_get id (ok body) = perform (complete_read_command id (codes "done") (some body) [])

unfoldable pub fetch : ℤ → Result Bytes → Reader
fetch id (err e) = fail id (codes "bad params: " ++ message e)
fetch id (ok path) = do body ← perform (get_raw path read_timeout); after_get id body

unfoldable pub after_expired_claim : ReadCommand → Result Bool → Reader
after_expired_claim cmd (ok true) =
    perform (complete_read_command cmd.id (codes "expired") none (codes "ttl"))
after_expired_claim cmd other = ret none

unfoldable pub handle_expired : ReadCommand → Reader
handle_expired cmd = do won ← perform (claim_read_command cmd.id); after_expired_claim cmd won

module _ (float_text : Bytes → Option Bytes) where
  unfoldable pub claimed : ReadCommand → Reader
  claimed cmd =
      if not (endpoint_allowed cmd.endpoint)
      then fail cmd.id (codes "endpoint not allowed: " ++ cmd.endpoint)
      else fetch cmd.id (build_path float_text cmd.endpoint cmd.params)

  unfoldable pub after_claim : ReadCommand → Result Bool → Reader
  after_claim cmd (err e) =
      ret (some (wrap (codes "claim read_command " ++ format_int cmd.id ++ codes ": ") e))
  after_claim cmd (ok false) = ret none
  after_claim cmd (ok true) = claimed cmd

  unfoldable pub handle_live : ReadCommand → Reader
  handle_live cmd = do won ← perform (claim_read_command cmd.id); after_claim cmd won

  -- Handle(ctx, cmd)
  unfoldable pub handle : ReadCommand → Reader
  handle cmd = if cmd.expires_at == 0 then handle_live cmd else do
    time ← perform now
    if ltb cmd.expires_at time then handle_expired cmd else handle_live cmd
