-- ===== src/Enroll.antt =====
-- internal/enroll/enroll.go: the registration with the backend.
use proxmoxvue_agent.Base.{ℕ, not, ◌++◌, ◌==◌, if◌then◌else◌, Bytes, codes, is_empty, format_nat}
use proxmoxvue_agent.Base.Failure.{text, wrap, Result, ok, err, ◌>>=◌}
use proxmoxvue_agent.Json.{Json, RawMessage, members, decode_string, object, member, end, string}
use proxmoxvue_agent.Supabase.Session.{Exchange, not_built, not_sent, not_read, response}

-- type Options struct
pub record Options : Type 0 where
  pub code : Bytes
  pub project_ref : Bytes

-- type Result struct
pub record Enrolled : Type 0 where
  pub cluster_id : Bytes
  pub host_id : Bytes
  pub refresh_token : Bytes
  pub project_ref : Bytes

-- The address and the body of the request
unfoldable pub endpoint_of : Options → Bytes
endpoint_of opts =
    codes "https://" ++ opts.project_ref ++ codes ".supabase.co/functions/v1/enroll-agent"

unfoldable pub body_of : Options → Json
body_of opts = object (member (codes "code") (string opts.code) end)

-- type response struct, as far as it is used
pub record Answer : Type 0 where
  pub result : Enrolled
  pub error_text : Bytes

decode_answer : Result RawMessage → Result Answer
unfolding members decode_string
decode_answer json = do
  raw ← json
  ms ← members (codes "enroll.response") raw
  cluster_id ← decode_string (codes "response.") (codes "cluster_id") ms
  host_id ← decode_string (codes "response.") (codes "host_id") ms
  access_token ← decode_string (codes "response.") (codes "access_token") ms
  refresh_token ← decode_string (codes "response.") (codes "refresh_token") ms
  project_ref ← decode_string (codes "response.") (codes "project_ref") ms
  error_text ← decode_string (codes "response.") (codes "error") ms
  ok (record {
    result = record {
      cluster_id = cluster_id;
      host_id = host_id;
      refresh_token = refresh_token;
      project_ref = project_ref;
    };
    error_text = error_text;
  })

accepted : ℕ → Result Answer → Result Enrolled
accepted status (err e) =
    err (wrap (codes "parse response (status " ++ format_nat status ++ codes "): ") e)
accepted status (ok a) =
    if not (status == 200)
    then err (
        text (if is_empty a.error_text then codes "status " ++ format_nat status else a.error_text))
    else ok a.result

-- Run(opts): what it makes of the exchange
unfoldable pub enrolled : Exchange → Result Enrolled
unfolding accepted decode_answer
enrolled (not_built e) = err (wrap (codes "build request: ") e)
enrolled (not_sent e) = err (wrap (codes "POST enroll-agent: ") e)
enrolled (not_read status e body) = err (wrap (codes "read response: ") e)
enrolled (response status body) = accepted status (decode_answer body.json)
