-- ===== src/Config/Redaction.antt =====
-- internal/config/config.go: the printed forms of the settings, which keep the secrets out.
use proxmoxvue_agent.Base.{
  ◌≡◌, refl, Bool, true, false, not, ◌++◌, if◌then◌else◌, Bytes, codes, is_empty,
}

-- type SupabaseConfig struct
pub record SupabaseConfig : Type 0 where
  pub cluster_id : Bytes
  pub refresh_token : Bytes
  pub private_key : Bytes

-- type ProxmoxConfig struct
pub record ProxmoxConfig : Type 0 where
  pub api_url : Bytes
  pub api_token_id : Bytes
  pub api_token_secret : Bytes
  pub verify_tls : Bool

abbrev pub masked : Bytes → Bytes
masked secret = if not (is_empty secret) then codes "[REDACTED]" else codes "<unset>"

-- `%t`
format_bool : Bool → Bytes
format_bool true = codes "true"
format_bool false = codes "false"

-- SupabaseConfig.String()
unfoldable pub supabase_string : SupabaseConfig → Bytes
supabase_string c =
    codes "{ClusterID:"
    ++ c.cluster_id
    ++ codes " RefreshToken:"
    ++ masked c.refresh_token
    ++ codes " PrivateKey:"
    ++ masked c.private_key
    ++ codes "}"

-- ProxmoxConfig.String()
unfoldable pub proxmox_string : ProxmoxConfig → Bytes
unfolding format_bool
proxmox_string c =
    codes "{APIURL:"
    ++ c.api_url
    ++ codes " APITokenID:"
    ++ c.api_token_id
    ++ codes " APITokenSecret:"
    ++ masked c.api_token_secret
    ++ codes " VerifyTLS:"
    ++ format_bool c.verify_tls
    ++ codes "}"

-- Two settings of Supabase that differ at most in secrets, both set or both not, print alike.
pub supabase_string-secret :
    (c d : SupabaseConfig)
    → c.cluster_id ≡ d.cluster_id
    → is_empty c.refresh_token ≡ is_empty d.refresh_token
    → is_empty c.private_key ≡ is_empty d.private_key
    → supabase_string c ≡ supabase_string d
unfolding supabase_string
supabase_string-secret c d ids tokens keys = rw (ids, tokens, keys) refl

-- Two settings of Proxmox that differ at most in the token's secret, set in both or in neither, print
-- alike.
pub proxmox_string-secret :
    (c d : ProxmoxConfig)
    → c.api_url ≡ d.api_url
    → c.api_token_id ≡ d.api_token_id
    → c.verify_tls ≡ d.verify_tls
    → is_empty c.api_token_secret ≡ is_empty d.api_token_secret
    → proxmox_string c ≡ proxmox_string d
unfolding proxmox_string
proxmox_string-secret c d urls ids tls secrets = rw (urls, ids, tls, secrets) refl
