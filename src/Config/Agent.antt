-- ===== src/Config/Agent.antt =====
-- internal/config/config.go: the settings of the agent, their defaults and their validation.
pub mod Defaults
use proxmoxvue_agent.Base.{
  ℕ, zero, suc, ◌+◌, ◌-◌, ◌*◌, ◌/◌, ◌%◌, ◌^◌, ◌≤◌, ◌<◌, ◌≡◌, ◌≢◌, refl, sym, ap, ◌∙◌, ◌↔◌, ◌⊎◌, inl,
  inr, Bool, true, false, not, ◌&&◌, ◌||◌, Option, none, some, List, [], ◌∷◌, ◌++◌, map, append-nil,
  append_assoc, arith, ltb, leb, ◌==◌, if◌then◌else◌, ==_iff, Bool-cases, Option-cases, &&-true,
  ||-true, length, take, drop, all, any, All, Bytes, codes, str_eq, str_eq_iff, str_eq→eq,
  str_eq_refl, is_empty, format_nat, if-cases, if-split,
}
use proxmoxvue_agent.Base.Int.{
  ℤ, pos, negsuc, is_zero, is_negative, is_positive, format_int, int_eq,
}
use proxmoxvue_agent.Base.Failure.{
  Failure, text, refresh_revoked, post_join_closed, wrap, message, is_revoked, Result, ok, err,
  wrap_err, ◌>>=◌,
}

-- type AgentConfig struct
pub record AgentConfig : Type 0 where
  pub poll_interval_seconds : ℤ
  pub log_level : Bytes
  pub log_file_path : Bytes
  pub log_max_size_mb : ℤ
  pub log_max_backups : ℤ
  pub log_max_age_days : ℤ

-- type LogRotation struct
pub record LogRotation : Type 0 where
  pub file_path : Bytes
  pub max_size_mb : ℤ
  pub max_backups : ℤ
  pub max_age_days : ℤ

abbrev pub default_log_file_path : Bytes
default_log_file_path = codes "/var/log/proxmoxvue-agent.log"

abbrev pub default_poll_interval_seconds : ℤ
default_poll_interval_seconds = pos 30

abbrev pub default_log_level : Bytes
default_log_level = codes "info"

abbrev pub default_log_max_size_mb : ℤ
default_log_max_size_mb = pos 10

abbrev pub default_log_max_backups : ℤ
default_log_max_backups = pos 5

abbrev pub default_log_max_age_days : ℤ
default_log_max_age_days = pos 30

-- if s == "" { s = d }, if z == 0 { z = d }
abbrev pub fill_text : Bytes → Bytes → Bytes
fill_text s d = if is_empty s then d else s

abbrev pub fill_int : ℤ → ℤ → ℤ
fill_int z d = if is_zero z then d else z

-- EffectiveLogRotation()
unfoldable pub effective_log_rotation : AgentConfig → LogRotation
effective_log_rotation c = record {
  file_path = fill_text c.log_file_path default_log_file_path;
  max_size_mb = fill_int c.log_max_size_mb default_log_max_size_mb;
  max_backups = fill_int c.log_max_backups default_log_max_backups;
  max_age_days = fill_int c.log_max_age_days default_log_max_age_days;
}

-- ValidateLogging()
unfoldable pub validate_logging : AgentConfig → Option Failure
validate_logging c =
    if is_negative c.log_max_size_mb
    then some (text (codes "log_max_size_mb must be >= 0, got " ++ format_int c.log_max_size_mb))
    else if is_negative c.log_max_backups
    then some (text (codes "log_max_backups must be >= 0, got " ++ format_int c.log_max_backups))
    else if is_negative c.log_max_age_days
    then some (text (codes "log_max_age_days must be >= 0, got " ++ format_int c.log_max_age_days))
    else none

-- EnsureDefaults(cfg): the settings that it leaves, and whether one of them is new.
unfoldable pub ensure_defaults : AgentConfig → AgentConfig × Bool
ensure_defaults c = (
  record {
    poll_interval_seconds = fill_int c.poll_interval_seconds default_poll_interval_seconds;
    log_level = fill_text c.log_level default_log_level;
    log_file_path = fill_text c.log_file_path default_log_file_path;
    log_max_size_mb = fill_int c.log_max_size_mb default_log_max_size_mb;
    log_max_backups = fill_int c.log_max_backups default_log_max_backups;
    log_max_age_days = fill_int c.log_max_age_days default_log_max_age_days;
  },
  is_zero c.poll_interval_seconds
      || is_empty c.log_level
      || is_empty c.log_file_path
      || is_zero c.log_max_size_mb
      || is_zero c.log_max_backups
      || is_zero c.log_max_age_days,
)
