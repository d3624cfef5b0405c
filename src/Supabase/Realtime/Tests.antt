-- ===== src/Supabase/Realtime/Tests.antt =====
-- The connections of internal/supabase at concrete values.
use proxmoxvue_agent.Base.{
  ℕ, ◌^◌, ◌≡◌, refl, true, none, some, [], ◌∷◌, ltb, ◌==◌, if◌then◌else◌, length, Bytes, codes,
  str_eq,
}
use proxmoxvue_agent.Base.Program.{World, run}
use proxmoxvue_agent.Base.Failure.{text, message, ok}
use proxmoxvue_agent.Json.{Json, member, end, string, number, object, RawMessage}
use proxmoxvue_agent.Supabase.Session.{Session, Body, post_token, persist, attempt}
use proxmoxvue_agent.Supabase.Session
use proxmoxvue_agent.Supabase.Realtime.Frame.{classify, insert, check_join}
use proxmoxvue_agent.Supabase.Realtime.Subscribe
use proxmoxvue_agent.Supabase.Realtime.Subscribe.{
  Read, lost, frame, session, dial, write_json, read, register_subscription,
  unregister_subscription, start_refresh_loop, catch_up, start_heartbeats, stop_heartbeats,
  count_ack, deliver, close,
}
use proxmoxvue_agent.Supabase.Broadcast
use proxmoxvue_agent.Supabase.Broadcast.{
  ActiveSub, Registry, register_subscription as register, unregister_subscription as unregister,
  refresh_and_push_all,
}
use proxmoxvue_agent.Supabase.Broadcast.Told.{refresh_and_push_all-Broadcast}
use proxmoxvue_agent.Supabase.Broadcast.Told

abbrev signed_in : Session
signed_in = record { access_token = codes "a0"; expires_at = 10 ^ 20; refresh_token = codes "r0" }

abbrev token_body : Body
token_body = record {
  raw = [];
  json = ok (
      some (
        object (
          member (codes "access_token") (string (codes "a1")) (
            member (codes "refresh_token") (string (codes "r1"))
              (member (codes "expires_in") (number (codes "3600")) end)))));
}

abbrev joined : RawMessage
joined = some (
    object (
      member (codes "event") (string (codes "phx_reply")) (
        member (codes "payload") (object (member (codes "status") (string (codes "ok")) end)) end)))

abbrev row : Json
row = object (member (codes "id") (number (codes "7")) end)

abbrev inserted : RawMessage
inserted = some (
    object (
      member (codes "event") (string (codes "postgres_changes")) (
        member (codes "payload")
          (object (
            member (codes "data")
              (object
                (member (codes "type") (string (codes "INSERT")) (member (codes "record") row end)))
              end))
          end)))

insert_classified : classify (ok inserted) ≡ insert (some row)
unfolding classify
insert_classified = refl

abbrev no_text : RawMessage → Bytes
no_text j = []

abbrev quoted : Bytes → Bytes
quoted s = s

abbrev no_stamp : ℕ → Bytes
no_stamp time = codes "2026-01-01T00:00:00Z"

join_accepted : check_join quoted no_text (ok joined) ≡ none
unfolding check_join str_eq
join_accepted = refl

-- The frames in their order, by the number of calls before: an answer to the join, one INSERT, and the end.
abbrev frames : ℕ → Read
frames n =
    if ltb n 4
    then frame (ok joined)
    else if ltb n 12
    then frame (ok inserted)
    else lost (text (codes "EOF"))

abbrev backend : World Subscribe.Call Subscribe.Reply
backend past (session Session.now) = 10 ^ 9
backend past (session (post_token token)) = Session.response 200 token_body
backend past (session (persist token)) = none
backend past (session (attempt request token)) = Session.response 200 token_body
backend past dial = none
backend past (write_json message) = none
backend past read = frames (length past)
backend past (register_subscription topic) = tt
backend past (unregister_subscription topic) = tt
backend past start_refresh_loop = tt
backend past catch_up = tt
backend past Subscribe.now = 10 ^ 9
backend past Subscribe.next_ref = codes "2"
backend past start_heartbeats = tt
backend past stop_heartbeats = tt
backend past count_ack = tt
backend past (deliver record_value) = none
backend past close = tt

abbrev commands_sub : ActiveSub
commands_sub = record { topic = codes "realtime:commands:c1"; connection = 1 }

abbrev reads_sub : ActiveSub
reads_sub = record { topic = codes "realtime:read_commands:c1"; connection = 2 }

-- The same topic, over a newer connection.
abbrev newer_sub : ActiveSub
newer_sub = record { topic = codes "realtime:commands:c1"; connection = 3 }

replaced :
    register newer_sub (register reads_sub (register commands_sub [])) ≡ newer_sub ∷ reads_sub ∷ []
unfolding register unregister str_eq
replaced = refl

-- The end of an older connection takes the newer one out.
removed_by_topic :
    unregister commands_sub.topic (register newer_sub (register commands_sub [])) ≡ []
unfolding register unregister str_eq
removed_by_topic = refl

-- The backend grants a token, and the first push fails.
abbrev patchy : World Broadcast.Call Broadcast.Reply
patchy past (Broadcast.session Session.now) = 10 ^ 9
patchy past (Broadcast.session (post_token token)) = Session.response 200 token_body
patchy past (Broadcast.session (persist token)) = none
patchy past (Broadcast.session (attempt request token)) = Session.response 200 token_body
patchy past (Broadcast.next_ref sub) = codes "3"
patchy past (Broadcast.write_json sub message) =
    if sub.connection == 1 then some (text (codes "broken pipe")) else none

refresh_and_push_all-Broadcast_example :
    let (out, t) =
      run patchy [] (refresh_and_push_all true (commands_sub ∷ reads_sub ∷ []) signed_in) in
    Told.Broadcast true signed_in (commands_sub ∷ reads_sub ∷ []) out t
refresh_and_push_all-Broadcast_example =
    refresh_and_push_all-Broadcast true signed_in (commands_sub ∷ reads_sub ∷ []) patchy
