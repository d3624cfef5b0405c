-- ===== src/Supabase/Token.antt =====
-- internal/supabase/client.go: the answer of the token endpoint.
use proxmoxvue_agent.Base.{ℕ, ◌||◌, ◌++◌, if◌then◌else◌, Bytes, codes, str_eq, is_empty, format_nat}
use proxmoxvue_agent.Base.Int.{ℤ}
use proxmoxvue_agent.Base.Failure.{Failure, text, refresh_revoked, Result, ok, ◌>>=◌}
use proxmoxvue_agent.Json.{members, decode_string, decode_int, RawMessage}

-- type refreshResponse struct
pub record RefreshResponse : Type 0 where
  pub access_token : Bytes
  pub refresh_token : Bytes
  pub expires_in : ℤ
  pub error_code : Bytes
  pub error_msg : Bytes

abbrev response_prefix : Bytes
response_prefix = codes "refreshResponse."

-- json.Unmarshal(raw, &parsed)
unfoldable pub decode_response : Result RawMessage → Result RefreshResponse
unfolding members decode_string decode_int
decode_response body = do
  raw ← body
  ms ← members (codes "supabase.refreshResponse") raw
  access_token ← decode_string response_prefix (codes "access_token") ms
  refresh_token ← decode_string response_prefix (codes "refresh_token") ms
  expires_in ← decode_int response_prefix (codes "expires_in") ms
  token_type ← decode_string response_prefix (codes "token_type") ms
  error_code ← decode_string response_prefix (codes "error_code") ms
  error_msg ← decode_string response_prefix (codes "error_description") ms
  ok (record {
    access_token = access_token;
    refresh_token = refresh_token;
    expires_in = expires_in;
    error_code = error_code;
    error_msg = error_msg;
  })

-- The error of a response whose status is not 200.
unfoldable pub refusal : ℕ → RefreshResponse → Failure
refusal status parsed =
    if str_eq parsed.error_code (codes "refresh_token_not_found")
      || str_eq parsed.error_code (codes "refresh_token_already_used")
    then refresh_revoked
    else if is_empty parsed.error_msg
    then text (codes "refresh failed: status " ++ format_nat status)
    else text (codes "refresh failed: " ++ parsed.error_msg)
