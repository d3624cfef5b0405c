-- ===== src/Supabase/Session.antt =====
-- internal/supabase/client.go: the tokens of a client, `access` and `refresh`.
pub mod Refresh
use proxmoxvue_agent.Base.{
  ℕ, zero, suc, ◌+◌, ◌-◌, ◌*◌, ◌/◌, ◌%◌, ◌^◌, ◌≤◌, ◌<◌, ◌≡◌, ◌≢◌, refl, sym, ap, ◌∙◌, ◌↔◌, ◌⊎◌, inl,
  inr, Bool, true, false, not, ◌&&◌, ◌||◌, Option, none, some, List, [], ◌∷◌, ◌++◌, map, append-nil,
  append_assoc, arith, ltb, leb, ◌==◌, if◌then◌else◌, ==_iff, Bool-cases, Option-cases, &&-true,
  ||-true, length, take, drop, all, any, All, Bytes, codes, str_eq, str_eq_iff, str_eq→eq,
  str_eq_refl, is_empty, format_nat, if-cases, if-split,
}
use proxmoxvue_agent.Base.Program.{Program, ret, call, ◌>>=◌, ◌>>◌, perform, Event, World, run}
use proxmoxvue_agent.Base.Int.{
  ℤ, pos, negsuc, is_zero, is_negative, is_positive, format_int, int_eq, add_duration, scale,
}
use proxmoxvue_agent.Base.Failure.{
  Failure, text, refresh_revoked, post_join_closed, wrap, message, is_revoked, Result, ok, err,
  wrap_err,
}
use proxmoxvue_agent.Json.{Json, RawMessage, members, decode_string, decode_int}
use proxmoxvue_agent.Commands.Payload.{second}
use proxmoxvue_agent.Supabase.Token.{RefreshResponse, decode_response, refusal}

-- The fields of Client that `access` and `refresh` use, for one goroutine at a time; a time is in
-- nanoseconds since Go's zero time.
pub record Session : Type 0 where
  pub access_token : Bytes
  pub expires_at : ℕ
  pub refresh_token : Bytes

-- A body: its bytes, and the value that json.Unmarshal reads them as, or the error that it gives.
pub record Body : Type 0 where
  pub raw : Bytes
  pub json : Result RawMessage

-- An HTTP exchange.
pub data Exchange : Type 0 where
  -- httpClient.Do failed
  not_sent : Failure → Exchange
  -- http.NewRequestWithContext failed
  not_built : Failure → Exchange
  -- io.ReadAll failed, with the part of the body that it had read
  not_read : (status : ℕ) → Failure → (body : Body) → Exchange
  response : (status : ℕ) → (body : Body) → Exchange

-- A request to PostgREST.
pub record Request : Type 0 where
  pub method : Bytes
  pub path : Bytes
  pub body : Option Json
  pub prefer : Bytes

pub data Call : Type 0 where
  now : Call
  -- POST authBase/token?grant_type=refresh_token
  post_token : (refresh_token : Bytes) → Call
  -- c.persist(newRefreshToken)
  persist : (refresh_token : Bytes) → Call
  -- One attempt of a request under restBase, with a bearer token.
  attempt : Request → (token : Bytes) → Call

abbrev pub Reply : Call → Type 0
Reply now = ℕ
Reply (post_token refresh_token) = Exchange
Reply (persist refresh_token) = Option Failure
Reply (attempt request token) = Exchange

-- A method of Client that mutates the session. None is a panic.
abbrev pub Method : Type 0 → Type 0
Method A = Program Call Reply (Option (Result A × Session))

-- refreshSkew, in nanoseconds
abbrev pub refresh_skew : ℕ
refresh_skew = 30 * second

abbrev pub fails : Session → Failure → Method Bytes
fails s e = ret (some (err e, s))

-- The session behind a refresh.
abbrev pub renewed : RefreshResponse → ℕ → Session
renewed parsed time = record {
  access_token = parsed.access_token;
  expires_at = add_duration time (scale parsed.expires_in second);
  refresh_token = parsed.refresh_token;
}

unfoldable pub after_persist : Session → RefreshResponse → Option Failure → Method Bytes
after_persist s parsed (some e) = fails s (wrap (codes "persist rotated refresh token: ") e)
after_persist s parsed none = do
  time ← perform now
  ret (some (ok parsed.access_token, renewed parsed time))

-- A client that was built with no persist function panics where it is called.
unfoldable pub persist_tokens : Bool → Session → RefreshResponse → Method Bytes
persist_tokens false s parsed = ret none
persist_tokens true s parsed = do
  saved ← perform (persist parsed.refresh_token)
  after_persist s parsed saved

unfoldable pub accept : Bool → Session → ℕ → RefreshResponse → Method Bytes
accept persists s status parsed =
    if not (status == 200)
    then fails s (refusal status parsed)
    else if is_empty parsed.access_token || is_empty parsed.refresh_token
    then fails s (text (codes "refresh response missing tokens"))
    else persist_tokens persists s parsed

unfoldable pub after_post : Bool → Session → Exchange → Method Bytes
after_post persists s (not_built e) = fails s (wrap (codes "build refresh request: ") e)
after_post persists s (not_sent e) = fails s (wrap (codes "POST token refresh: ") e)
after_post persists s (not_read status e body) = fails s (wrap (codes "read refresh response: ") e)
after_post persists s (response status body) = elim (decode_response body.json) [
  | err e ↦
      fails s (wrap (codes "parse refresh response (status " ++ format_nat status ++ codes "): ") e)
  | ok parsed ↦ accept persists s status parsed
]

-- refresh(ctx). `persists` is false for a nil persist function.
unfoldable pub refresh : Bool → Session → Method Bytes
refresh persists s = do reply ← perform (post_token s.refresh_token); after_post persists s reply

-- access(ctx)
unfoldable pub access : Bool → Session → Method Bytes
access persists s = if is_empty s.access_token then refresh persists s else do
  time ← perform now
  if ltb (time + refresh_skew) s.expires_at
      then ret (some (ok s.access_token, s))
      else refresh persists s
