-- ===== src/RemoteConfig.antt =====
-- internal/remoteconfig/fetcher.go: where the configuration of the backend comes from.
pub mod Load
mod Tests
use proxmoxvue_agent.Base.{
  ℕ, zero, suc, ◌+◌, ◌-◌, ◌*◌, ◌/◌, ◌%◌, ◌^◌, ◌≤◌, ◌<◌, ◌≡◌, ◌≢◌, refl, sym, ap, ◌∙◌, ◌↔◌, ◌⊎◌, inl,
  inr, Bool, true, false, not, ◌&&◌, ◌||◌, Option, none, some, List, [], ◌∷◌, ◌++◌, map, append-nil,
  append_assoc, arith, ltb, leb, ◌==◌, if◌then◌else◌, ==_iff, Bool-cases, Option-cases, &&-true,
  ||-true, length, take, drop, all, any, All, Bytes, codes, str_eq, str_eq_iff, str_eq→eq,
  str_eq_refl, is_empty, format_nat, if-cases, if-split,
}
use proxmoxvue_agent.Base.Program.{Program, ret, call, ◌>>=◌, ◌>>◌, perform, Event, World, run}
use proxmoxvue_agent.Base.Int.{
  ℤ, pos, negsuc, is_zero, is_negative, is_positive, format_int, int_eq,
}
use proxmoxvue_agent.Base.Failure.{
  Failure, text, refresh_revoked, post_join_closed, wrap, message, is_revoked, Result, ok, err,
  wrap_err,
}
use proxmoxvue_agent.Json.{Json, RawMessage, Members, find, members, decode_string, decode_int}

-- type Config struct; the time is in nanoseconds since Go's zero time
pub record Config : Type 0 where
  pub schema_version : ℤ
  pub supabase_base_url : Bytes
  pub supabase_publishable_key : Bytes
  pub supabase_realtime_url : Bytes
  pub min_agent_version : Bytes
  pub issued_at : ℕ

-- BakedInDefault
abbrev pub baked_in_default : Config
baked_in_default = record {
  schema_version = pos 1;
  supabase_base_url = codes "https://fjesjyoxpkalaudfyebx.supabase.co";
  supabase_publishable_key = codes "sb_publishable_zRZhor-u2pIdiSXAGDLlMA_Dl8tbDS5";
  supabase_realtime_url = [];
  min_agent_version = [];
  issued_at = 0;
}

-- type Source int
pub data Source : Type 0 where
  source_live : Source
  source_cache : Source
  source_baked_in : Source

-- The answer to the request of fetchLive, or the error in its way; `json` is what json.Unmarshal reads
-- the first 64 KiB of the body as.
pub data Fetched : Type 0 where
  not_fetched : Failure → Fetched
  response : (status : ℕ) → (json : Result RawMessage) → Fetched

pub data Call : Type 0 where
  fetch : Call
  -- os.ReadFile(f.CachePath), with what json.Unmarshal reads the file as
  read_file : Call
  write_cache : (cfg : Config) → Call

abbrev pub Reply : Call → Type 0
Reply fetch = Fetched
Reply read_file = Result RawMessage
Reply (write_cache cfg) = Option Failure

abbrev pub bind_result : {A B : Type 0} → Result A → (A → Result B) → Result B
bind_result (ok a) f = f a
bind_result (err e) f = err e

abbrev struct_prefix : Bytes
struct_prefix = codes "Config."

-- `time_of` is UnmarshalJSON of time.Time.
module _ (time_of : Json → Result ℕ) where
  time_field : Bytes → Members → Result ℕ
  time_field key ms = elim (find key ms) [ none ↦ ok 0 | some value ↦ time_of value ]

  unfoldable pub decode_members : Members → Result Config
  unfolding time_field
  decode_members ms =
      bind_result (decode_int struct_prefix (codes "schema_version") ms) λ schema_version.
        bind_result (decode_string struct_prefix (codes "supabase_base_url") ms) λ base_url.
          bind_result (decode_string struct_prefix (codes "supabase_publishable_key") ms) λ key.
            bind_result (decode_string struct_prefix (codes "supabase_realtime_url") ms) λ realtime.
              bind_result (decode_string struct_prefix (codes "min_agent_version") ms) λ version.
                bind_result (time_field (codes "issued_at") ms) λ issued_at. ok (record {
                  schema_version = schema_version;
                  supabase_base_url = base_url;
                  supabase_publishable_key = key;
                  supabase_realtime_url = realtime;
                  min_agent_version = version;
                  issued_at = issued_at;
                })

  -- json.Unmarshal(data, &cfg)
  unfoldable pub decode_config : Result RawMessage → Result Config
  decode_config body =
      bind_result body λ raw. bind_result (members (codes "remoteconfig.Config") raw) decode_members

  -- The checks of fetchLive on a configuration that was read.
  unfoldable pub check_live : Config → Result Config
  check_live cfg =
      if not (int_eq cfg.schema_version (pos 1))
      then err (text (codes "unsupported schema_version " ++ format_int cfg.schema_version))
      else if is_empty cfg.supabase_base_url || is_empty cfg.supabase_publishable_key
      then err (text (codes "required fields missing"))
      else ok cfg

  -- fetchLive(ctx): what it makes of the answer
  unfoldable pub live_of : Fetched → Result Config
  live_of (not_fetched e) = err e
  live_of (response status json) =
      if not (status == 200)
      then err (text (codes "status " ++ format_nat status))
      else bind_result (decode_config json) check_live

  unfoldable pub check_cached : Config → Result Config
  check_cached cfg =
      if not (int_eq cfg.schema_version (pos 1))
      then err (text (codes "cached schema_version mismatch"))
      else ok cfg

  -- readCache(): what it makes of the file
  unfoldable pub cached_of : Result RawMessage → Result Config
  cached_of file = bind_result (decode_config file) check_cached

  abbrev pub Loader : Type 0
  Loader = Program Call Reply (Config × Source)

  unfoldable pub after_cache : Result Config → Loader
  after_cache (ok cfg) = ret (cfg, source_cache)
  after_cache (err e) = ret (baked_in_default, source_baked_in)

  unfoldable pub after_live : Result Config → Loader
  after_live (ok cfg) = call (write_cache cfg) λ saved. ret (cfg, source_live)
  after_live (err e) = call read_file λ file. after_cache (cached_of file)

  -- Load(ctx)
  unfoldable pub load : Loader
  load = call fetch λ answer. after_live (live_of answer)
