-- ===== src/Proxmox/Tasks.antt =====
-- internal/proxmox/actions.go: TaskStatus and AwaitTaskCompletion.
pub mod Wait
use proxmoxvue_agent.Proxmox.Client.{Request, Exchange, get, decoded}
use proxmoxvue_agent.Base.Program.{Program, ret, call}
use proxmoxvue_agent.Base.{
  ℕ, zero, suc, ◌+◌, ◌-◌, ◌*◌, ◌/◌, ◌%◌, ◌^◌, ◌≤◌, ◌<◌, ◌≡◌, ◌≢◌, refl, sym, ap, ◌∙◌, ◌↔◌, ◌⊎◌, inl,
  inr, Bool, true, false, not, ◌&&◌, ◌||◌, Option, none, some, List, [], ◌∷◌, ◌++◌, map, append-nil,
  append_assoc, arith, ltb, leb, ◌==◌, if◌then◌else◌, ==_iff, Bool-cases, Option-cases, &&-true,
  ||-true, length, take, drop, all, any, All, Bytes, codes, str_eq, str_eq_iff, str_eq→eq,
  str_eq_refl, is_empty, format_nat, if-cases, if-split,
}
use proxmoxvue_agent.Base.Int.{
  ℤ, pos, negsuc, is_zero, is_negative, is_positive, format_int, int_eq,
}
use proxmoxvue_agent.Base.Failure.{Failure, text, wrap, message, Result, ok, err, wrap_err, ◌>>=◌}
use proxmoxvue_agent.Json.{Json, RawMessage, members, find, decode_string}
use proxmoxvue_agent.Commands.Calls.{TaskStatus}
use proxmoxvue_agent.Url.{path_escape}

pub data Call : Type 0 where
  now : Call
  send : (request : Request) → Call
  -- The wait of pollInterval, which the context can cut short with an error.
  pause : Call

abbrev pub Reply : Call → Type 0
Reply now = ℕ
Reply (send request) = Exchange
Reply pause = Option Failure

-- pollInterval, in nanoseconds
abbrev pub poll_interval : ℕ
poll_interval = 500 * 10 ^ 6

abbrev pub status_request : Bytes → Bytes → Request
status_request node upid =
    get
      (codes "/api2/json/nodes/" ++ node ++ codes "/tasks/" ++ path_escape upid ++ codes "/status")

abbrev fields_type : Bytes
fields_type =
    codes "struct { UPID string \"json:\\\"upid\\\"\"; Status string \"json:\\\"status\\\"\"; "
    ++ codes "ExitStatus string \"json:\\\"exitstatus\\\"\" }"

-- The member `data`, a struct with the three strings; without it they are empty.
decode_fields : Option Json → Result TaskStatus
unfolding members decode_string
decode_fields none = ok (record { upid = []; is_done = false; exit_status = [] })
decode_fields (some data_value) = do
  ms ← members fields_type (some data_value)
  upid ← decode_string (codes ".data.") (codes "upid") ms
  status ← decode_string (codes ".data.") (codes "status") ms
  exit_status ← decode_string (codes ".data.") (codes "exitstatus") ms
  ok (record { upid = upid; is_done = str_eq status (codes "stopped"); exit_status = exit_status })

decode_status : RawMessage → Result TaskStatus
unfolding decode_fields members find
decode_status raw = do
  ms ← members (codes "struct { Data " ++ fields_type ++ codes " \"json:\\\"data\\\"\" }") raw
  decode_fields (find (codes "data") ms)

-- TaskStatus(ctx, node, upid): what it makes of the answer
unfoldable pub task_status : Exchange → Result TaskStatus
unfolding decode_status decode_fields
task_status x = wrap_err (codes "task status: ") (decoded decode_status x)

abbrev pub Task : Type 0
Task = Program Call Reply (Option (Result TaskStatus))

-- AwaitTaskCompletion(ctx, node, upid, timeout) with fuel for so many polls; none is out of fuel. An
-- error leaves out the status that the code returns with it. `show` prints a time.Duration.
module _ (show : ℕ → Bytes) (node upid : Bytes) (timeout : ℕ) where
  unfoldable pub after_pause : Task → Option Failure → Task
  after_pause rest (some e) = ret (some (err e))
  after_pause rest none = rest

  unfoldable pub after_clock : ℕ → Task → ℕ → Task
  after_clock deadline rest time =
      if ltb deadline time
      then ret (
          some
            (err (text (codes "await task " ++ upid ++ codes ": timeout after " ++ show timeout))))
      else call pause (after_pause rest)

  unfoldable pub after_status : ℕ → Task → Result TaskStatus → Task
  after_status deadline rest (err e) = ret (some (err e))
  after_status deadline rest (ok st) =
      if st.is_done then ret (some (ok st)) else call now (after_clock deadline rest)

  unfoldable pub await : ℕ → ℕ → Task
  await zero deadline = ret none
  await (suc n) deadline =
      call (send (status_request node upid))
        λ x. after_status deadline (await n deadline) (task_status x)

  unfoldable pub await_task_completion : ℕ → Task
  await_task_completion fuel = call now (λ start. await fuel (start + timeout))
