-- ===== src/Supabase/Client.antt =====
-- internal/supabase/client.go: New, and the client's printed form.
use proxmoxvue_agent.Base.{not, [], ◌++◌, ◌==◌, if◌then◌else◌, Bytes, codes, is_empty, trim_right}
use proxmoxvue_agent.Base.Failure.{Result, ok, err, wrap_err}
use proxmoxvue_agent.Supabase.Session.{Session}

-- The fields of Client that New sets.
pub record Client : Type 0 where
  pub base_url : Bytes
  pub publishable_key : Bytes
  pub auth_base : Bytes
  pub rest_base : Bytes
  pub realtime_url : Bytes
  pub session : Session

-- A client before its first refresh; expiresAt is the zero time.
abbrev pub signed_out : Bytes → Session
signed_out refresh_token = record {
  access_token = [];
  expires_at = 0;
  refresh_token = refresh_token;
}

abbrev pub client_with : Bytes → Bytes → Bytes → Bytes → Client
client_with base publishable_key realtime_url refresh_token = record {
  base_url = base;
  publishable_key = publishable_key;
  auth_base = base ++ codes "/auth/v1";
  rest_base = base ++ codes "/rest/v1";
  realtime_url = realtime_url;
  session = signed_out refresh_token;
}

-- New(baseURL, publishableKey, realtimeOverride, initialRefreshToken, persist). `host_of` is the Host
-- of url.Parse, `quote` is `%q`.
module _ (host_of : Bytes → Result Bytes) (quote : Bytes → Bytes) where
  unfoldable pub new : Bytes → Bytes → Bytes → Bytes → Result Client
  new base_url publishable_key realtime_override refresh_token =
      let base = trim_right (λ c. c == b'/') base_url in
      if not (is_empty realtime_override)
      then ok (client_with base publishable_key realtime_override refresh_token)
      else elim (wrap_err (codes "parse baseURL " ++ quote base ++ codes ": ") (host_of base)) [
        | err e ↦ err e
        | ok host ↦ ok (
            client_with base publishable_key
              (codes "wss://" ++ host ++ codes "/realtime/v1/websocket") refresh_token)
      ]

-- Client.String()
unfoldable pub client_string : Client → Bytes
client_string c =
    codes "{baseURL:" ++ c.base_url ++ codes " accessToken:[REDACTED] refreshToken:[REDACTED]}"
