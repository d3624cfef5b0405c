-- ===== src/Config/Tests.antt =====
-- The settings of internal/config/config.go at concrete values.
use proxmoxvue_agent.Base.{◌≡◌, refl, ◌↔◌, true, false, ◌&&◌, none, [], Bytes, codes}
use proxmoxvue_agent.Base.Int.{pos, is_positive}
use proxmoxvue_agent.Config.Agent.{
  AgentConfig, ensure_defaults, effective_log_rotation, validate_logging,
}
use proxmoxvue_agent.Config.Agent.Defaults.{
  ensure_defaults-ensure_defaults, ensure_defaults-unchanged,
  effective_log_rotation-ensure_defaults, validate_logging_iff,
}
use proxmoxvue_agent.Config.Redaction.{
  SupabaseConfig, ProxmoxConfig, supabase_string, proxmox_string, supabase_string-secret,
  proxmox_string-secret,
}

-- A file with two keys only.
abbrev sparse : AgentConfig
sparse = record {
  poll_interval_seconds = pos 15;
  log_level = [];
  log_file_path = [];
  log_max_size_mb = pos 0;
  log_max_backups = pos 3;
  log_max_age_days = pos 0;
}

abbrev full : AgentConfig
full = record {
  poll_interval_seconds = pos 15;
  log_level = codes "debug";
  log_file_path = codes "/tmp/agent.log";
  log_max_size_mb = pos 1;
  log_max_backups = pos 3;
  log_max_age_days = pos 7;
}

fills : (ensure_defaults sparse).0.log_max_size_mb ≡ pos 10
unfolding ensure_defaults
fills = refl

ensure_defaults-ensure_defaults_example :
    ensure_defaults (ensure_defaults sparse).0 ≡ ((ensure_defaults sparse).0, false)
ensure_defaults-ensure_defaults_example = ensure_defaults-ensure_defaults sparse

full_unchanged : (ensure_defaults full).1 ≡ false
unfolding ensure_defaults
full_unchanged = refl

ensure_defaults-unchanged_example : (ensure_defaults full).0 ≡ full
ensure_defaults-unchanged_example = ensure_defaults-unchanged full full_unchanged

effective_log_rotation-ensure_defaults_example :
    let c' = (ensure_defaults sparse).0 in
    (effective_log_rotation c' ≡ effective_log_rotation sparse)
    × (effective_log_rotation sparse ≡ record {
      file_path = c'.log_file_path;
      max_size_mb = c'.log_max_size_mb;
      max_backups = c'.log_max_backups;
      max_age_days = c'.log_max_age_days;
    })
effective_log_rotation-ensure_defaults_example = effective_log_rotation-ensure_defaults sparse

validate_logging_iff_example :
    let r = effective_log_rotation sparse in
    (validate_logging sparse ≡ none)
    ↔ (is_positive r.max_size_mb && is_positive r.max_backups && is_positive r.max_age_days ≡ true)
validate_logging_iff_example = validate_logging_iff sparse

abbrev supabase_settings : Bytes → SupabaseConfig
supabase_settings token = record {
  cluster_id = codes "c1";
  refresh_token = token;
  private_key = [];
}

supabase_string-secret_example :
    supabase_string (supabase_settings (codes "old"))
    ≡ supabase_string (supabase_settings (codes "new"))
supabase_string-secret_example =
    supabase_string-secret (supabase_settings (codes "old")) (supabase_settings (codes "new")) refl
      refl refl

abbrev proxmox_settings : Bytes → ProxmoxConfig
proxmox_settings secret = record {
  api_url = codes "https://pve:8006";
  api_token_id = codes "agent@pve!agent";
  api_token_secret = secret;
  verify_tls = false;
}

proxmox_string-secret_example :
    proxmox_string (proxmox_settings (codes "a")) ≡ proxmox_string (proxmox_settings (codes "b"))
proxmox_string-secret_example =
    proxmox_string-secret (proxmox_settings (codes "a")) (proxmox_settings (codes "b")) refl refl
      refl refl
