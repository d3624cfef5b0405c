-- ===== src/Runtime/Start.antt =====
-- internal/runtime/runtime.go: Start, up to the keys: the settings are read and checked, both
-- clients are built and tried, and the private key is ensured.
pub mod Effects
pub mod Tokens
use proxmoxvue_agent.Base.{
  ℕ, zero, suc, ◌+◌, ◌-◌, ◌*◌, ◌/◌, ◌%◌, ◌^◌, ◌≤◌, ◌<◌, ◌≡◌, ◌≢◌, refl, sym, ap, ◌∙◌, ◌↔◌, ◌⊎◌, inl,
  inr, Bool, true, false, not, ◌&&◌, ◌||◌, Option, none, some, List, [], ◌∷◌, ◌++◌, map, append-nil,
  append_assoc, arith, ltb, leb, ◌==◌, if◌then◌else◌, ==_iff, Bool-cases, Option-cases, &&-true,
  ||-true, length, take, drop, all, any, All, Bytes, codes, str_eq, str_eq_iff, str_eq→eq,
  str_eq_refl, is_empty, format_nat, if-cases, if-split,
}
use proxmoxvue_agent.Base.Program.{Program, ret, call, ◌>>=◌, ◌>>◌, perform, Event, World, run}
use proxmoxvue_agent.Base.Int.{
  ℤ, pos, negsuc, is_zero, is_negative, is_positive, format_int, int_eq,
}
use proxmoxvue_agent.Base.Failure.{
  Failure, text, refresh_revoked, post_join_closed, wrap, message, is_revoked, Result, ok, err,
  wrap_err,
}
use proxmoxvue_agent.Base.Compose.{lift, interpret}
use proxmoxvue_agent.Config.Storage.{File}
use proxmoxvue_agent.Json.{Members}
use proxmoxvue_agent.Proxmox.Settings
use proxmoxvue_agent.Proxmox.Settings.{Config, valid}
use proxmoxvue_agent.Proxmox.Client
use proxmoxvue_agent.Proxmox.Cluster.{version_request, version}
use proxmoxvue_agent.Supabase.Client.{new}
use proxmoxvue_agent.Supabase.Session.{Session, refresh, post_token, persist, attempt}
use proxmoxvue_agent.Supabase.Session
use proxmoxvue_agent.Supabase.Commands.{upload_cluster_public_key}
use proxmoxvue_agent.KeySync.{KeyBytes, save, upload, ensure_private_key, upload_public_key}
use proxmoxvue_agent.KeySync
use proxmoxvue_agent.Runtime.Persist
use proxmoxvue_agent.Runtime.Persist.{load, persist_refresh_to}
use proxmoxvue_agent.Agent.{failure_of}
use proxmoxvue_agent.Commands.Payload.{second}

pub data Call : Type 0 where
  files : Persist.Call → Call
  -- What supabase.Client calls; the function that it persists tokens with is among the files' calls.
  session : Session.Call → Call
  proxmox : Client.Request → Call
  generate_keypair : Call

abbrev pub Reply : Call → Type 0
Reply (files c) = Persist.Reply c
Reply (session c) = Session.Reply c
Reply (proxmox request) = Client.Exchange
Reply generate_keypair = Result KeyBytes

abbrev pub files_reply : (c : Persist.Call) → Reply (files c) → Persist.Reply c
files_reply c r = r

-- validate(cfg)
unfoldable pub validate : File → Option Failure
validate cfg =
    if is_empty cfg.supabase.cluster_id || is_empty cfg.supabase.refresh_token
    then some (text (codes "supabase section incomplete (run --register first)"))
    else valid (record {
      api_url = cfg.proxmox.api_url;
      api_token_id = cfg.proxmox.api_token_id;
      api_token_secret = cfg.proxmox.api_token_secret;
      verify_tls = false;
    })

-- interval, in seconds
unfoldable pub interval_of : File → ℤ
interval_of cfg =
    if is_positive cfg.agent.poll_interval_seconds then cfg.agent.poll_interval_seconds else pos 30

-- cfg.Supabase.PrivateKey = privateKeyB64
abbrev pub with_key : Bytes → File → File
with_key private_key f = record {
  supabase = record {
    cluster_id = f.supabase.cluster_id;
    refresh_token = f.supabase.refresh_token;
    private_key = private_key;
  };
  proxmox = f.proxmox;
  agent = f.agent;
}

-- What Start has in hand when the key is ensured; the interval is in seconds.
pub record Booted : Type 0 where
  pub settings : File
  pub session : Session
  pub interval : ℤ
  pub private_key : Bytes
  pub generated : Bool

-- A program of the process; none is a panic.
abbrev pub Boot : Type 0 → Type 0
Boot A = Program Call Reply (Option A)

abbrev pub stop : {A : Type 0} → Bytes → Failure → Boot (Result A)
stop prefix e = ret (some (err (wrap prefix e)))

-- A call of the client of internal/supabase that New(…, persistRefreshTo(configPath)) builds.
unfoldable pub on_wire : Bytes → (c : Session.Call) → Program Call Reply (Session.Reply c)
on_wire path Session.now = perform (session Session.now)
on_wire path (post_token token) = perform (session (post_token token))
on_wire path (persist token) = lift files files_reply (persist_refresh_to path token)
on_wire path (attempt request token) = perform (session (attempt request token))

abbrev pub wired :
    {A : Type 0} → Bytes → Program Session.Call Session.Reply A → Program Call Reply A
wired path (ret a) = ret a
wired path (call c k) = on_wire path c >>= λ r. wired path (k r)

-- `host_of` and `quote` are those of supabase.New, and `stamp` prints a time.
module _ (host_of : Bytes → Result Bytes) (quote : Bytes → Bytes) (stamp : ℕ → Bytes)
    (path : Bytes) where
  -- The calls of the key's synchronisation, with the settings cfg that are in memory.
  unfoldable pub key_call : File → (c : KeySync.Call) → Session → Boot (KeySync.Reply c × Session)
  key_call cfg KeySync.generate_keypair s = do key ← perform generate_keypair; ret (some (key, s))
  key_call cfg (save private_key) s = do
    failed ← perform (files (Persist.save path (with_key private_key cfg)))
    ret (some (failed, s))
  key_call cfg (upload cluster_id public_key) s = do
    out ← wired path (upload_cluster_public_key stamp true cluster_id public_key s)
    ret (elim out [ none ↦ none | some (r, s') ↦ some (failure_of r, s') ])

  unfoldable pub ensured : File → Option (Result (Bytes × Bool) × Session) → Boot (Result Booted)
  ensured cfg none = ret none
  ensured cfg (some (err e, s)) = stop (codes "ensure private key: ") e
  ensured cfg (some (ok (private_key, generated), s)) = ret (
      some (
        ok (record {
          settings = cfg;
          session = s;
          interval = interval_of cfg;
          private_key = private_key;
          generated = generated;
        })))

  -- Behind sb.Ping(ctx)
  unfoldable pub pinged : File → Option (Result Bytes × Session) → Boot (Result Booted)
  pinged cfg none = ret none
  pinged cfg (some (err e, s)) = stop (codes "supabase initial auth: ") e
  pinged cfg (some (ok token, s)) =
      interpret (key_call cfg) (ensure_private_key cfg.supabase.private_key) s >>= ensured cfg

  unfoldable pub versioned : File → Session → Result Members → Boot (Result Booted)
  versioned cfg s (err e) = stop (codes "proxmox version check: ") e
  versioned cfg s (ok fields) = wired path (refresh true s) >>= pinged cfg

  module _ (base_url publishable_key realtime_url : Bytes) where
    unfoldable pub checked : File → Option Failure → Boot (Result Booted)
    checked cfg (some e) = stop (codes "config invalid: ") e
    checked cfg none =
        elim (new host_of quote base_url publishable_key realtime_url cfg.supabase.refresh_token) [
          | err e ↦ stop (codes "build supabase client: ") e
          | ok client ↦ do
            answer ← perform (proxmox version_request)
            versioned cfg client.session (version answer)
        ]

    unfoldable pub after_settings : Result File → Boot (Result Booted)
    after_settings (err e) = stop (codes "load config: ") e
    after_settings (ok cfg) = checked cfg (validate cfg)

    -- Start(ctx, configPath, version, rc), until the key is ensured
    unfoldable pub start : Boot (Result Booted)
    start = do read ← perform (files (load path)); after_settings read
