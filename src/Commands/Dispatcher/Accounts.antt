-- ===== src/Commands/Dispatcher/Accounts.antt =====
-- Claims, calls of Proxmox and completions weighed against one another, over every run of Handle and
-- over every interleaving of handlers.
use proxmoxvue_agent.Base.{
  ℕ, ◌≤◌, ◌≡◌, refl, Bool, true, false, Option, none, List, arith, ltb, ◌==◌, if◌then◌else◌, Bytes,
  if-cases,
}
use proxmoxvue_agent.Base.Program.{ret, call, Event}
use proxmoxvue_agent.Base.Int.{ℤ}
use proxmoxvue_agent.Base.Failure.{Failure, Result, ok, err}
use proxmoxvue_agent.Commands.Dispatcher.{
  after_wait, after_action, handle_live, after_claim, handle, after_expired_claim, claimed,
  handle_expired,
}
use proxmoxvue_agent.Commands.Calls.{
  Call, actor, TaskStatus, claim_command, Reply, complete_command, await_task_completion, Command,
  Handler, now,
}
use proxmoxvue_agent.Crypto.{Hpke}
use proxmoxvue_agent.Base.Ledger.{Settles, Affords, spent, earned, settles→affords}
use proxmoxvue_agent.Commands.Route.{Dispatcher}
use proxmoxvue_agent.Commands.Dispatcher.Body.{Body, failing, claimed-Body, acting}
use native.Mathlib.Nat.{zero-add}
use proxmoxvue_agent.Base.Ledger.Pool.{Reach, spent-le-earned}

-- A claim that this handler won.
abbrev pub won : (c : Call) → Reply c → ℕ
won (claim_command id) (ok true) = 1
won (claim_command id) other = 0
won now r = 0
won (complete_command id status result) r = 0
won (actor c) r = 0
won (await_task_completion node upid timeout) r = 0

-- A completion, and a call that starts a task of Proxmox.
abbrev pub completes : Call → ℕ
completes (complete_command id status result) = 1
completes other = 0

abbrev pub acts : Call → ℕ
acts (actor c) = 1
acts other = 0

after_wait-Settles :
    (id : ℤ) (upid : Bytes) (r : Result TaskStatus) → Settles won completes 1 (after_wait id upid r)
unfolding after_wait
after_wait-Settles id upid (err e) = (omega arith, λ r. refl)
after_wait-Settles id upid (ok st) = (omega arith, λ r. refl)

after_action-Settles :
    (id : ℤ) (node : Bytes) (timeout : ℕ) (r : Result Bytes)
    → Settles won completes 1 (after_action id node timeout r)
unfolding after_action
after_action-Settles id node timeout (err e) = (omega arith, λ r. refl)
after_action-Settles id node timeout (ok upid) = (omega arith, λ r. after_wait-Settles id upid r)

after_action-Affords :
    (id : ℤ) (node : Bytes) (timeout : ℕ) (r : Result Bytes)
    → Affords won acts 0 (after_action id node timeout r)
unfolding after_action after_wait
after_action-Affords id node timeout (err e) = (omega arith, λ r. tt)
after_action-Affords id node timeout (ok upid) = (omega arith, after)
  where
    after : (r : Result TaskStatus) → Affords won acts 0 (after_wait id upid r)
    after (err e) = (omega arith, λ r. tt)
    after (ok st) = (omega arith, λ r. tt)

module _ (hpke : Hpke) (d : Dispatcher) (cmd : Command) where
  Body-Settles : {p : Handler} → Body hpke d cmd p → Settles won completes 1 p
  Body-Settles (failing m) = (omega arith, λ r. refl)
  Body-Settles (acting p c asked) =
      (omega arith, after_action-Settles cmd.id p.node d.action_timeout)

  Body-Affords : {p : Handler} → Body hpke d cmd p → Affords won acts 1 p
  Body-Affords (failing m) = (omega arith, λ r. tt)
  Body-Affords (acting p c asked) =
      (omega arith, after_action-Affords cmd.id p.node d.action_timeout)

  -- The stages behind a claim keep a property that the body has, if ending at once keeps it too.
  after_claim-cases :
      (P : ℕ → Handler → Type 0)
      → ((r : Option Failure) → P 0 (ret r))
      → P 1 (claimed hpke d cmd)
      → (r : Result Bool) → P (won (claim_command cmd.id) r) (after_claim hpke d cmd r)
  unfolding after_claim
  after_claim-cases P stop body (err e) = stop _
  after_claim-cases P stop body (ok false) = stop none
  after_claim-cases P stop body (ok true) = body

  after_expired_claim-cases :
      (P : ℕ → Handler → Type 0)
      → ((r : Option Failure) → P 0 (ret r))
      → P 1 (after_expired_claim cmd (ok true))
      → (r : Result Bool) → P (won (claim_command cmd.id) r) (after_expired_claim cmd r)
  unfolding after_expired_claim
  after_expired_claim-cases P stop body (err e) = stop none
  after_expired_claim-cases P stop body (ok false) = stop none
  after_expired_claim-cases P stop body (ok true) = body

  pub handle-cases :
      (P : Handler → Type 0)
      → P (handle_live hpke d cmd)
      → (((time : ℕ)
            → P (if ltb cmd.expires_at time then handle_expired cmd else handle_live hpke d cmd))
          → P (
              call now (λ time.
                if ltb cmd.expires_at time then handle_expired cmd else handle_live hpke d cmd)))
      → P (handle_expired cmd)
      → P (handle hpke d cmd)
  unfolding handle
  handle-cases P live timed expired =
      if-cases P (cmd.expires_at == 0) live
        (timed λ time. if-cases P (ltb cmd.expires_at time) expired live)

  pub handle-Settles : Settles won completes 0 (handle hpke d cmd)
  unfolding handle_live handle_expired
  handle-Settles =
      handle-cases (Settles won completes 0)
        (
          omega arith,
          λ r. rw zero-add (
              after_claim-cases (Settles won completes) (λ e. refl)
                (Body-Settles (claimed-Body hpke d cmd)) r),
        )
        (λ next. (omega arith, next))
        (
          omega arith,
          λ r. rw zero-add (
              after_expired_claim-cases (Settles won completes) (λ e. refl)
                (unfold after_expired_claim in (omega arith, λ r. refl)) r),
        )

  pub handle-Affords : Affords won acts 0 (handle hpke d cmd)
  unfolding handle_live handle_expired
  handle-Affords =
      handle-cases (Affords won acts 0)
        (
          omega arith,
          λ r. rw zero-add (
              after_claim-cases (Affords won acts) (λ e. tt)
                (Body-Affords (claimed-Body hpke d cmd)) r),
        )
        (λ next. (omega arith, next))
        (
          omega arith,
          λ r. rw zero-add (
              after_expired_claim-cases (Affords won acts) (λ e. tt)
                (unfold after_expired_claim in (omega arith, λ r. tt)) r),
        )

-- The handlers of one command: for any configuration, whatever else the rows say that brought the
-- command to them.
abbrev pub HandlesCommand : Hpke → ℤ → Handler → Type 0
HandlesCommand hpke id p =
    (d : Dispatcher) × (cmd : Command) × (cmd.id ≡ id) × (p ≡ handle hpke d cmd)

-- However many handlers of a command run side by side, interleaved in any way and whatever they are
-- answered, they start no more tasks of Proxmox and write no more completions than claims were
-- granted. So a backend that grants a command once has it executed at most once.
pub tasks-le-claims :
    (hpke : Hpke) (id : ℤ) {t : List (Event Call Reply)} {ps : List Handler}
    → Reach (HandlesCommand hpke id) t ps
    → (spent acts t ≤ earned won t) × (spent completes t ≤ earned won t)
tasks-le-claims hpke id r = (
  spent-le-earned won acts (HandlesCommand hpke id)
      (λ p (d, cmd, same, e). rw e (handle-Affords hpke d cmd)) r,
  spent-le-earned won completes (HandlesCommand hpke id)
      (λ p (d, cmd, same, e).
        rw e (settles→affords won completes 0 (handle hpke d cmd) (handle-Settles hpke d cmd)))
      r,
)
