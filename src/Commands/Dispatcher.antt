-- ===== src/Commands/Dispatcher.antt =====
-- internal/commands/dispatcher.go: Dispatcher.Handle. A stage between two calls is a function of the
-- reply to the first.
pub mod Body
pub mod Accounts
pub mod Outcome
use proxmoxvue_agent.Base.{
  ℕ, zero, suc, ◌+◌, ◌-◌, ◌*◌, ◌/◌, ◌%◌, ◌^◌, ◌≤◌, ◌<◌, ◌≡◌, ◌≢◌, refl, sym, ap, ◌∙◌, ◌↔◌, ◌⊎◌, inl,
  inr, Bool, true, false, not, ◌&&◌, ◌||◌, Option, none, some, List, [], ◌∷◌, ◌++◌, map, append-nil,
  append_assoc, arith, ltb, leb, ◌==◌, if◌then◌else◌, ==_iff, Bool-cases, Option-cases, &&-true,
  ||-true, length, take, drop, all, any, All, Bytes, codes, str_eq, str_eq_iff, str_eq→eq,
  str_eq_refl, is_empty, format_nat,
}
use proxmoxvue_agent.Base.Program.{Program, ret, call, ◌>>=◌, ◌>>◌, perform, Event, World, run}
use proxmoxvue_agent.Base.Int.{ℤ, format_int}
use proxmoxvue_agent.Base.Failure.{Failure, text, wrap, message, Result, ok, err, wrap_err}
use proxmoxvue_agent.Commands.Calls.{
  Command, Handler, TaskStatus, await_task_completion, claim_command, complete_command, now, actor,
}
use proxmoxvue_agent.Crypto.{Hpke}
use proxmoxvue_agent.Commands.Route.{Dispatcher, Route, route, reject, send}
use proxmoxvue_agent.Commands.Payload.{is_guest_kind, lacks_guest, CommandPayload, decode_payload}
use proxmoxvue_agent.Proxmox.Action.{is_known}

-- d.store.CompleteCommand(ctx, cmd.ID, "failed", map[string]any{"error": ...})
abbrev pub fail : ℤ → Bytes → Handler
fail id message = perform (complete_command id (codes "failed") ((codes "error", message) ∷ []))

-- The last part of Handle: the task's end decides the status.
unfoldable pub after_wait : ℤ → Bytes → Result TaskStatus → Handler
after_wait id upid (err e) =
    perform (
      complete_command id (codes "failed") ((codes "upid", upid) ∷ (codes "error", message e) ∷ []))
after_wait id upid (ok st) = perform (
    complete_command id
      (if str_eq st.exit_status (codes "OK") then codes "done" else codes "failed")
      ((codes "upid", upid) ∷ (codes "exitstatus", st.exit_status) ∷ []))

unfoldable pub after_action : ℤ → Bytes → ℕ → Result Bytes → Handler
after_action id node timeout (err e) = fail id (message e)
after_action id node timeout (ok upid) = do
  st ← perform (await_task_completion node upid timeout)
  after_wait id upid st

unfoldable pub after_expired_claim : Command → Result Bool → Handler
after_expired_claim cmd (ok true) =
    perform (complete_command cmd.id (codes "expired") ((codes "reason", codes "ttl") ∷ []))
after_expired_claim cmd other = ret none

unfoldable pub handle_expired : Command → Handler
handle_expired cmd = do won ← perform (claim_command cmd.id); after_expired_claim cmd won

unfoldable pub dispatch : Dispatcher → ℤ → CommandPayload → Route → Handler
dispatch d id p (reject message) = fail id message
dispatch d id p (send c) = do upid ← perform (actor c); after_action id p.node d.action_timeout upid

module _ (hpke : Hpke) where
  -- The checks of a claimed command's payload.
  unfoldable pub validated : Dispatcher → Command → CommandPayload → Handler
  validated d cmd p =
      if not (is_guest_kind p.guest_kind)
      then fail cmd.id (codes "unknown guest_kind: " ++ p.guest_kind)
      else if lacks_guest p
      then fail cmd.id (codes "missing node or vmid")
      else dispatch d cmd.id p (route hpke d cmd.kind p)

  unfoldable pub decoded : Dispatcher → Command → Result CommandPayload → Handler
  decoded d cmd (err e) = fail cmd.id (codes "bad payload: " ++ message e)
  decoded d cmd (ok p) = validated d cmd p

  unfoldable pub claimed : Dispatcher → Command → Handler
  claimed d cmd =
      if not (is_known cmd.kind)
      then fail cmd.id (codes "unknown kind: " ++ cmd.kind)
      else decoded d cmd (decode_payload cmd.payload)

  unfoldable pub after_claim : Dispatcher → Command → Result Bool → Handler
  after_claim d cmd (err e) =
      ret (some (wrap (codes "claim " ++ format_int cmd.id ++ codes ": ") e))
  after_claim d cmd (ok false) = ret none
  after_claim d cmd (ok true) = claimed d cmd

  unfoldable pub handle_live : Dispatcher → Command → Handler
  handle_live d cmd = do won ← perform (claim_command cmd.id); after_claim d cmd won

  -- Handle(ctx, cmd)
  unfoldable pub handle : Dispatcher → Command → Handler
  handle d cmd = if cmd.expires_at == 0 then handle_live d cmd else do
    time ← perform now
    if ltb cmd.expires_at time then handle_expired cmd else handle_live d cmd
