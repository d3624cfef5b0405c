-- ===== src/Supabase/Tests.antt =====
-- The client of internal/supabase at concrete values.
use proxmoxvue_agent.Supabase.Commands.{bytes_to_bytea}
use proxmoxvue_agent.Supabase.Commands.Bytea.{read_bytea, read_bytea-bytes_to_bytea}
use proxmoxvue_agent.Base.{◌↔◌, List, ◌/◌, ◌≤◌, ◌<◌, if◌then◌else◌, ltb, ◌*◌, ◌+◌, arith}
use proxmoxvue_agent.Commands.Payload.{second}
use proxmoxvue_agent.Supabase.Realtime.{Beat, tick, ack, beat, watch, start, backoff_of, wait_of}
use proxmoxvue_agent.Supabase.Realtime.Reconnect.{backoff_of-doubles, wait_of-bounds}
use proxmoxvue_agent.Supabase.Realtime.Heartbeat.{watch-closes}
use proxmoxvue_agent.Base.{ℕ, ◌^◌, ◌≡◌, refl, true, false, none, some, [], ◌∷◌, Bytes, codes}
use proxmoxvue_agent.Base.Program.{World, run}
use proxmoxvue_agent.Base.Int.{pos}
use proxmoxvue_agent.Base.Failure.{ok}
use proxmoxvue_agent.Json.{nil, cons, member, end, object, string, number, array}
use proxmoxvue_agent.Supabase.Session.{
  Session, Body, Call, Reply, Request, response, now, post_token, persist, attempt, refresh,
}
use proxmoxvue_agent.Supabase.Session.Refresh.{Refreshed, refresh-Refreshed, refresh_panics}
use proxmoxvue_agent.Supabase.Token.{RefreshResponse, decode_response}
use proxmoxvue_agent.Supabase.Rest.{with_auth, patch}
use proxmoxvue_agent.Supabase.Rest.Retry.{Tried, with_auth-Tried}
use proxmoxvue_agent.Supabase.Commands.{claim_row}
use proxmoxvue_agent.Supabase.Commands.Claim.{Claimed, claim_row-Claimed}

abbrev session : Session
session = record { access_token = codes "a0"; expires_at = 0; refresh_token = codes "r0" }

abbrev token_body : Body
token_body = record {
  raw = [];
  json = ok (
      some (
        object (
          member (codes "access_token") (string (codes "a1")) (
            member (codes "refresh_token") (string (codes "r1"))
              (member (codes "expires_in") (number (codes "3600")) end)))));
}

abbrev tokens : RefreshResponse
tokens = record {
  access_token = codes "a1";
  refresh_token = codes "r1";
  expires_in = pos 3600;
  error_code = [];
  error_msg = [];
}

-- The backend grants new tokens, and denies the first request for a row.
abbrev backend : World Call Reply
backend past now = 10 ^ 9
backend past (post_token token) = response 200 token_body
backend past (persist token) = none
backend [] (attempt request token) = response 401 (record { raw = []; json = ok none })
backend (e ∷ past) (attempt request token) =
    response 200 (record { raw = []; json = ok (some (array (cons (object end) nil))) })

tokens_read : decode_response token_body.json ≡ ok tokens
unfolding decode_response
tokens_read = refl

refresh-Refreshed_example :
    let (out, t) = run backend [] (refresh true session) in Refreshed true session [] out t
refresh-Refreshed_example = refresh-Refreshed true session backend

refresh_panics_example : (run backend [] (refresh false session)).0 ≡ none
refresh_panics_example = refresh_panics session backend refl tokens_read refl refl

abbrev row_request : Request
row_request = patch (codes "/commands?id=eq.7") (object end) (codes "return=minimal")

with_auth-Tried_example :
    let (out, t) = run backend [] (with_auth true row_request session) in
    Tried true row_request out t
with_auth-Tried_example = with_auth-Tried true row_request session backend

abbrev no_stamp : ℕ → Bytes
no_stamp time = codes "2026-01-01T00:00:00Z"

claim_row-Claimed_example :
    let (out, t) = run backend [] (claim_row no_stamp true (codes "commands") (pos 7) session) in
    Claimed no_stamp true (codes "commands") (pos 7) out t
claim_row-Claimed_example =
    claim_row-Claimed no_stamp true (codes "commands") (pos 7) session backend

backoff_of-doubles_example : backoff_of 7 ≡ (if ltb 7 5 then 2 ^ 7 * second else 32 * second)
backoff_of-doubles_example = backoff_of-doubles 7

third_is_small : 10 ^ 9 < backoff_of 2 / 2
unfolding backoff_of
third_is_small = omega arith

wait_of-bounds_example :
    (3 * backoff_of 2 ≤ 4 * wait_of (backoff_of 2) (10 ^ 9))
    × (4 * wait_of (backoff_of 2) (10 ^ 9) ≤ 5 * backoff_of 2)
    × (3 * second ≤ 4 * wait_of (backoff_of 2) (10 ^ 9))
    × (wait_of (backoff_of 2) (10 ^ 9) ≤ 40 * second)
wait_of-bounds_example = wait_of-bounds 2 (10 ^ 9) third_is_small

-- One heartbeat was answered, the second was not.
abbrev beats : List Beat
beats = tick ∷ ack ∷ tick ∷ []

still_open : (watch start beats).is_closed ≡ false
unfolding watch
still_open = refl

watch-closes_example :
    let s = watch start beats in
    (s.sent ≤ s.acked + 1) × (((beat s tick).is_closed ≡ true) ↔ (s.sent ≡ s.acked + 1))
watch-closes_example = watch-closes beats still_open

abbrev some_key : Bytes
some_key = 0 ∷ 255 ∷ 16 ∷ []

read_bytea-bytes_to_bytea_example : read_bytea (bytes_to_bytea some_key) ≡ some some_key
read_bytea-bytes_to_bytea_example =
    read_bytea-bytes_to_bytea some_key (omega arith, (omega arith, (omega arith, tt)))
