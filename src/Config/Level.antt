-- ===== src/Config/Level.antt =====
-- internal/config/config.go: ParseLogLevel. Spaces and letters outside ASCII are not modelled.
use proxmoxvue_agent.Base.{◌||◌, ◌++◌, if◌then◌else◌, Bytes, codes, str_eq, is_empty}
use proxmoxvue_agent.Base.Failure.{text, Result, ok, err}
use proxmoxvue_agent.Base.{trim_space, to_lower}

-- slog.Level
pub data Level : Type 0 where
  debug : Level
  info : Level
  warn : Level
  error : Level

-- ParseLogLevel(s), where `quote` is `%q`
unfoldable pub parse_log_level : (Bytes → Bytes) → Bytes → Result Level
unfolding trim_space to_lower
parse_log_level quote s =
    let name = to_lower (trim_space s) in
    if is_empty name || str_eq name (codes "info")
    then ok info
    else if str_eq name (codes "debug")
    then ok debug
    else if str_eq name (codes "warn") || str_eq name (codes "warning")
    then ok warn
    else if str_eq name (codes "error")
    then ok error
    else err
        (text (codes "invalid log_level " ++ quote s ++ codes " (valid: debug, info, warn, error)"))
