-- ===== src/CommandLine/Register.antt =====
-- cmd/proxmoxvue-agent/main.go: runRegister, behind the parsing of its flags, and
-- promptProxmoxConfig. What is printed is left out, but for the prompts.
pub mod Kept
pub mod Merge
use proxmoxvue_agent.Base.{
  ℕ, zero, suc, ◌+◌, ◌-◌, ◌*◌, ◌/◌, ◌%◌, ◌^◌, ◌≤◌, ◌<◌, ◌≡◌, ◌≢◌, refl, sym, ap, ◌∙◌, ◌↔◌, ◌⊎◌, inl,
  inr, Bool, true, false, not, ◌&&◌, ◌||◌, Option, none, some, List, [], ◌∷◌, ◌++◌, map, append-nil,
  append_assoc, arith, ltb, leb, ◌==◌, if◌then◌else◌, ==_iff, Bool-cases, Option-cases, &&-true,
  ||-true, length, take, drop, all, any, All, Bytes, codes, str_eq, str_eq_iff, str_eq→eq,
  str_eq_refl, is_empty, format_nat, if-cases, if-split,
}
use proxmoxvue_agent.Base.Program.{Program, ret, call, ◌>>=◌, ◌>>◌, perform, Event, World, run}
use proxmoxvue_agent.Base.Int.{
  ℤ, pos, negsuc, is_zero, is_negative, is_positive, format_int, int_eq,
}
use proxmoxvue_agent.Base.Failure.{
  Failure, text, refresh_revoked, post_join_closed, wrap, message, is_revoked, Result, ok, err,
  wrap_err,
}
use proxmoxvue_agent.Base.{trim_space, to_lower}
use proxmoxvue_agent.Config.Storage.{File}
use proxmoxvue_agent.Config.Agent.{AgentConfig, ensure_defaults}
use proxmoxvue_agent.Config.Level.{parse_log_level}
use proxmoxvue_agent.Enroll.{Options, Enrolled, enrolled}
use proxmoxvue_agent.Supabase.Session.{Exchange}
use proxmoxvue_agent.KeySync.{KeyBytes}
use proxmoxvue_agent.Base64

-- What config.Load comes to, with os.ErrNotExist apart.
pub data Loaded : Type 0 where
  loaded : File → Loaded
  missing : Loaded
  broken : Failure → Loaded

pub data Call : Type 0 where
  post_enroll : Options → Call
  load : (path : Bytes) → Call
  save : (path : Bytes) → File → Call
  generate_keypair : Call
  -- supabase.New with what the remote configuration says
  new_client : (refresh_token : Bytes) → Call
  -- keysync.UploadPublicKey; none is a panic.
  upload_public_key : (cluster_id private_key : Bytes) → Call
  is_stdin_tty : Call
  -- A prompt, and reader.ReadString
  ask : (prompt : Bytes) → Call

abbrev pub Reply : Call → Type 0
Reply (post_enroll opts) = Exchange
Reply (load path) = Loaded
Reply (save path f) = Option Failure
Reply generate_keypair = Result KeyBytes
Reply (new_client refresh_token) = Option Failure
Reply (upload_public_key cluster_id private_key) = Option (Option Failure)
Reply is_stdin_tty = Bool
Reply (ask prompt) = Bytes

-- The exit status, none for a panic.
abbrev pub Command : Type 0
Command = Program Call Reply (Option ℕ)

abbrev pub exit : ℕ → Command
exit status = ret (some status)

-- readLine(r, prompt)
unfoldable pub read_line : Bytes → Program {0} Call Reply Bytes
unfolding trim_space
read_line prompt = do line ← perform (ask prompt); ret (trim_space line)

-- One field of promptProxmoxConfig, which asks if there is nothing yet.
unfoldable pub fill : Bytes → Bytes → Program {0} Call Reply Bytes
fill current prompt = if is_empty current then read_line prompt else ret current

abbrev pub is_filled : Bytes → Bytes → Bool
is_filled old new = is_empty old && not (is_empty new)

-- v == "y" || v == "yes", in lower case
unfoldable pub is_yes : Bytes → Bool
unfolding to_lower
is_yes v = str_eq (to_lower v) (codes "y") || str_eq (to_lower v) (codes "yes")

abbrev pub is_fresh : File → Bool
is_fresh f =
    is_empty f.proxmox.api_url
    && is_empty f.proxmox.api_token_id
    && is_empty f.proxmox.api_token_secret

abbrev pub with_proxmox : File → Bytes → Bytes → Bytes → Bool → File
with_proxmox f url id secret verify = record {
  supabase = f.supabase;
  proxmox = record {
    api_url = url;
    api_token_id = id;
    api_token_secret = secret;
    verify_tls = verify;
  };
  agent = f.agent;
}

unfoldable pub ask_verify : Bool → Bool → Program {0} Call Reply Bool
ask_verify false verify = ret verify
ask_verify true verify = do
  line ← read_line (codes "  verify_tls (y/N) [N for self-signed homelab certs]: ")
  ret (is_yes line)

-- promptProxmoxConfig(cfg): the settings that it leaves, and whether one of them is new
unfoldable pub prompt_proxmox_config : File → Program {0} Call Reply (File × Bool)
prompt_proxmox_config f = do
  url ← fill f.proxmox.api_url (codes "  api_url (e.g. https://pve.example.com:8006): ")
  id ← fill f.proxmox.api_token_id (codes "  api_token_id (e.g. root@pam!claude): ")
  secret ← fill f.proxmox.api_token_secret (codes "  api_token_secret (uuid): ")
  let changed =
      is_filled f.proxmox.api_url url
      || is_filled f.proxmox.api_token_id id
      || is_filled f.proxmox.api_token_secret secret
  verify ← ask_verify (is_fresh f && changed) f.proxmox.verify_tls
  ret (with_proxmox f url id secret verify, changed)

abbrev pub empty_file : File
empty_file = record {
  supabase = record { cluster_id = []; refresh_token = []; private_key = [] };
  proxmox = record { api_url = []; api_token_id = []; api_token_secret = []; verify_tls = false };
  agent = record {
    poll_interval_seconds = pos 0;
    log_level = [];
    log_file_path = [];
    log_max_size_mb = pos 0;
    log_max_backups = pos 0;
    log_max_age_days = pos 0;
  };
}

-- The settings with a new Supabase block, but for the private key, and with the defaults
abbrev pub merged : File → Enrolled → File
merged f r = record {
  supabase = record {
    cluster_id = r.cluster_id;
    refresh_token = r.refresh_token;
    private_key = f.supabase.private_key;
  };
  proxmox = f.proxmox;
  agent = (ensure_defaults f.agent).0;
}

abbrev pub keyed : File → Bytes → File
keyed f private_key = record {
  supabase = record {
    cluster_id = f.supabase.cluster_id;
    refresh_token = f.supabase.refresh_token;
    private_key = private_key;
  };
  proxmox = f.proxmox;
  agent = f.agent;
}

-- `quote` is `%q`.
module _ (quote : Bytes → Bytes) (path : Bytes) where
  -- The exit behind the last save
  abbrev pub exit_saved : Option Failure → Command
  exit_saved none = exit 0
  exit_saved (some e) = exit 1

  unfoldable pub after_prompt : File × Bool → Command
  after_prompt (f, changed) = if changed then call (save path f) exit_saved else exit 0

  unfoldable pub after_tty : File → Bool → Command
  after_tty f tty = if tty then prompt_proxmox_config f >>= after_prompt else exit 0

  unfoldable pub after_upload : File → Option (Option Failure) → Command
  after_upload f none = ret none
  after_upload f (some failed) =
      if is_empty f.proxmox.api_url || is_empty f.proxmox.api_token_secret
      then call is_stdin_tty (after_tty f)
      else exit 0

  unfoldable pub after_client : File → Option Failure → Command
  after_client f (some e) = exit 1
  after_client f none =
      call (upload_public_key f.supabase.cluster_id f.supabase.private_key) (after_upload f)

  unfoldable pub after_key_saved : File → Option Failure → Command
  after_key_saved f (some e) = exit 1
  after_key_saved f none = call (new_client f.supabase.refresh_token) (after_client f)

  unfoldable pub after_key : File → Result KeyBytes → Command
  after_key f (err e) = exit 1
  after_key f (ok key) =
      let f' = keyed f (Base64.encode key.0) in call (save path f') (after_key_saved f')

  -- Behind the first save, with keysync.EnsurePrivateKey
  unfoldable pub after_save : File → Option Failure → Command
  after_save f (some e) = exit 1
  after_save f none =
      if not (is_empty f.supabase.private_key)
      then call (new_client f.supabase.refresh_token) (after_client f)
      else call generate_keypair (after_key f)

  unfoldable pub write_merged : File → Enrolled → Command
  write_merged f r = call (save path (merged f r)) (after_save (merged f r))

  -- The check of the log level, for settings that exist
  abbrev pub has_bad_level : AgentConfig → Bool
  has_bad_level c =
      not (is_empty c.log_level)
      && (elim (parse_log_level quote c.log_level) [ ok level ↦ false | err e ↦ true ])

  unfoldable pub after_load : Enrolled → Loaded → Command
  after_load r (loaded f) = if has_bad_level f.agent then exit 1 else write_merged f r
  after_load r missing = write_merged empty_file r
  after_load r (broken e) = exit 1

  unfoldable pub after_enroll : Result Enrolled → Command
  after_enroll (err e) = exit 1
  after_enroll (ok r) = call (load path) (after_load r)

  -- runRegister(args), with the code and the project as arguments
  unfoldable pub run_register : Options → Command
  run_register opts = call (post_enroll opts) (λ x. after_enroll (enrolled x))
