-- ===== src/Runtime/Persist.antt =====
-- internal/runtime/runtime.go: persistRefreshTo, which writes a rotated refresh token to config.yml.
pub mod Disk
pub mod Crash
use proxmoxvue_agent.Base.{
  ℕ, zero, suc, ◌+◌, ◌-◌, ◌*◌, ◌/◌, ◌%◌, ◌^◌, ◌≤◌, ◌<◌, ◌≡◌, ◌≢◌, refl, sym, ap, ◌∙◌, ◌↔◌, ◌⊎◌, inl,
  inr, Bool, true, false, not, ◌&&◌, ◌||◌, Option, none, some, List, [], ◌∷◌, ◌++◌, map, append-nil,
  append_assoc, arith, ltb, leb, ◌==◌, if◌then◌else◌, ==_iff, Bool-cases, Option-cases, &&-true,
  ||-true, length, take, drop, all, any, All, Bytes, codes, str_eq, str_eq_iff, str_eq→eq,
  str_eq_refl, is_empty, format_nat, if-cases, if-split,
}
use proxmoxvue_agent.Base.Program.{Program, ret, call, ◌>>=◌, ◌>>◌, perform, Event, World, run}
use proxmoxvue_agent.Base.Failure.{
  Failure, text, refresh_revoked, post_join_closed, wrap, message, is_revoked, Result, ok, err,
  wrap_err,
}
use proxmoxvue_agent.Config.Storage.{File}

pub data Call : Type 0 where
  -- config.Load
  load : (path : Bytes) → Call
  -- config.Save
  save : (path : Bytes) → File → Call
  -- os.CreateTemp, for a name like .config-*.yml
  create_temp : Call
  -- os.Chmod, with mode 0600
  chmod : (path : Bytes) → Call
  rename : (old_path new_path : Bytes) → Call
  remove : (path : Bytes) → Call

abbrev pub Reply : Call → Type 0
Reply (load path) = Result File
Reply (save path f) = Option Failure
Reply create_temp = Result Bytes
Reply (chmod path) = Option Failure
Reply (rename old_path new_path) = Option Failure
Reply (remove path) = Option Failure

abbrev pub FileProgram : Type 0
FileProgram = Program Call Reply (Option Failure)

-- current.Supabase.RefreshToken = newToken
abbrev pub with_token : Bytes → File → File
with_token token f = record {
  supabase = record {
    cluster_id = f.supabase.cluster_id;
    refresh_token = token;
    private_key = f.supabase.private_key;
  };
  proxmox = f.proxmox;
  agent = f.agent;
}

-- os.Remove(tmpPath), with the error that is returned
abbrev pub discard : Bytes → Failure → FileProgram
discard tmp e = do perform (remove tmp); ret (some e)

unfoldable pub after_rename : Bytes → Option Failure → FileProgram
after_rename tmp (some e) = discard tmp (wrap (codes "rename temp: ") e)
after_rename tmp none = ret none

unfoldable pub after_chmod : Bytes → Bytes → Option Failure → FileProgram
after_chmod path tmp (some e) = discard tmp (wrap (codes "chmod temp: ") e)
after_chmod path tmp none = call (rename tmp path) (after_rename tmp)

unfoldable pub after_save : Bytes → Bytes → Option Failure → FileProgram
after_save path tmp (some e) = discard tmp e
after_save path tmp none = call (chmod tmp) (after_chmod path tmp)

unfoldable pub after_temp : Bytes → File → Result Bytes → FileProgram
after_temp path current (err e) = ret (some (wrap (codes "create temp: ") e))
after_temp path current (ok tmp) = call (save tmp current) (after_save path tmp)

unfoldable pub after_load : Bytes → Bytes → Result File → FileProgram
after_load path token (err e) = ret (some (wrap (codes "reload config: ") e))
after_load path token (ok current) = call create_temp (after_temp path (with_token token current))

-- persistRefreshTo(path)(newToken)
unfoldable pub persist_refresh_to : Bytes → Bytes → FileProgram
persist_refresh_to path token = call (load path) (after_load path token)
