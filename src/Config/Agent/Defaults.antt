-- ===== src/Config/Agent/Defaults.antt =====
-- What the defaults of the agent's settings come to.
use proxmoxvue_agent.Base.{
  ◌≡◌, refl, ap, ◌↔◌, true, false, not, ◌&&◌, none, arith, Bytes, is_empty, if-split,
}
use proxmoxvue_agent.Base.Int.{ℤ, pos, negsuc, is_zero, is_negative, is_positive}
use proxmoxvue_agent.Config.Agent.{
  AgentConfig, ensure_defaults, effective_log_rotation, validate_logging, fill_int, fill_text,
  default_poll_interval_seconds, default_log_level, default_log_file_path, default_log_max_size_mb,
  default_log_max_backups, default_log_max_age_days,
}

fill_int-set : (z d : ℤ) → is_zero z ≡ false → fill_int z d ≡ z
fill_int-set z d h = ground arith

fill_text-set : (s d : Bytes) → is_empty s ≡ false → fill_text s d ≡ s
fill_text-set s d h = ground arith

fill_int-filled : (z d : ℤ) → is_zero d ≡ false → is_zero (fill_int z d) ≡ false
fill_int-filled z d h = if-split (λ x. is_zero x ≡ false) (is_zero z) (λ e. h) (λ e. e)

fill_text-filled : (s d : Bytes) → is_empty d ≡ false → is_empty (fill_text s d) ≡ false
fill_text-filled s d h = if-split (λ x. is_empty x ≡ false) (is_empty s) (λ e. h) (λ e. e)

-- Settings with nothing to fill.
record IsComplete (c : AgentConfig) : Type 0 where
  has_interval : is_zero c.poll_interval_seconds ≡ false
  has_level : is_empty c.log_level ≡ false
  has_path : is_empty c.log_file_path ≡ false
  has_size : is_zero c.log_max_size_mb ≡ false
  has_backups : is_zero c.log_max_backups ≡ false
  has_age : is_zero c.log_max_age_days ≡ false

complete : (c : AgentConfig) → (ensure_defaults c).1 ≡ false → IsComplete c
unfolding ensure_defaults
complete c h = record {
  has_interval = ground arith;
  has_level = ground arith;
  has_path = ground arith;
  has_size = ground arith;
  has_backups = ground arith;
  has_age = ground arith;
}

ensure_defaults-IsComplete : (c : AgentConfig) → IsComplete (ensure_defaults c).0
unfolding ensure_defaults
ensure_defaults-IsComplete c = record {
  has_interval = fill_int-filled c.poll_interval_seconds default_poll_interval_seconds refl;
  has_level = fill_text-filled c.log_level default_log_level refl;
  has_path = fill_text-filled c.log_file_path default_log_file_path refl;
  has_size = fill_int-filled c.log_max_size_mb default_log_max_size_mb refl;
  has_backups = fill_int-filled c.log_max_backups default_log_max_backups refl;
  has_age = fill_int-filled c.log_max_age_days default_log_max_age_days refl;
}

IsComplete-fixed : (c : AgentConfig) → IsComplete c → ensure_defaults c ≡ (c, false)
unfolding ensure_defaults
IsComplete-fixed c h =
    rw
      (
        fill_int-set c.poll_interval_seconds default_poll_interval_seconds h.has_interval,
        fill_text-set c.log_level default_log_level h.has_level,
        fill_text-set c.log_file_path default_log_file_path h.has_path,
        fill_int-set c.log_max_size_mb default_log_max_size_mb h.has_size,
        fill_int-set c.log_max_backups default_log_max_backups h.has_backups,
        fill_int-set c.log_max_age_days default_log_max_age_days h.has_age,
      )
      (rw (h.has_interval, h.has_level, h.has_path, h.has_size, h.has_backups, h.has_age) refl)

-- EnsureDefaults is done in one pass: on what it leaves it changes nothing and reports no change.
pub ensure_defaults-ensure_defaults :
    (c : AgentConfig) → let c' = (ensure_defaults c).0 in ensure_defaults c' ≡ (c', false)
ensure_defaults-ensure_defaults c =
    IsComplete-fixed (ensure_defaults c).0 (ensure_defaults-IsComplete c)

-- Without a reported change the settings are the ones that it was given.
pub ensure_defaults-unchanged :
    (c : AgentConfig) → (ensure_defaults c).1 ≡ false → (ensure_defaults c).0 ≡ c
ensure_defaults-unchanged c h = ap (λ p. p.0) (IsComplete-fixed c (complete c h))

-- The log settings in effect are the same before and after EnsureDefaults, which then has written
-- them out: each is the value of its own key.
pub effective_log_rotation-ensure_defaults :
    (c : AgentConfig)
    → let c' = (ensure_defaults c).0 in
      (effective_log_rotation c' ≡ effective_log_rotation c)
      × (effective_log_rotation c ≡ record {
        file_path = c'.log_file_path;
        max_size_mb = c'.log_max_size_mb;
        max_backups = c'.log_max_backups;
        max_age_days = c'.log_max_age_days;
      })
unfolding ensure_defaults effective_log_rotation
effective_log_rotation-ensure_defaults c =
    let h = ensure_defaults-IsComplete c in
    (
      rw
          (
            fill_text-set _ default_log_file_path h.has_path,
            fill_int-set _ default_log_max_size_mb h.has_size,
            fill_int-set _ default_log_max_backups h.has_backups,
            fill_int-set _ default_log_max_age_days h.has_age,
          )
          refl,
      refl,
    )

fill_int-positive :
    (z d : ℤ) → is_positive d ≡ true → is_positive (fill_int z d) ≡ not (is_negative z)
fill_int-positive (pos n) d h = ground arith
fill_int-positive (negsuc n) d h = refl

-- ValidateLogging accepts the settings exactly when every number of the rotation in effect is above
-- zero.
pub validate_logging_iff :
    (c : AgentConfig)
    → let r = effective_log_rotation c in
      (validate_logging c ≡ none) ↔ (
        is_positive r.max_size_mb && is_positive r.max_backups && is_positive r.max_age_days ≡ true)
unfolding validate_logging effective_log_rotation
validate_logging_iff c =
    rw
      (
        fill_int-positive c.log_max_size_mb default_log_max_size_mb refl,
        fill_int-positive c.log_max_backups default_log_max_backups refl,
        fill_int-positive c.log_max_age_days default_log_max_age_days refl,
      )
      (ground arith)
