-- ===== src/Supabase/Realtime/Frame.antt =====
-- internal/supabase/realtime.go: what is sent over a connection, and what is made of what comes back.
pub mod Meaning
pub mod Join
use proxmoxvue_agent.Base.{
  Bool, true, not, ◌&&◌, ◌||◌, Option, none, some, [], ◌∷◌, ◌++◌, if◌then◌else◌, Bytes, codes,
  str_eq, is_empty,
}
use proxmoxvue_agent.Base.Failure.{Failure, text, wrap, Result, ok, err, ◌>>=◌}
use proxmoxvue_agent.Base.{has_prefix}
use proxmoxvue_agent.Json.{
  Json, nil, cons, bool, object, array, string, member, end, Members, RawMessage, members, find,
  decode_string,
}
use proxmoxvue_agent.Proxmox.Cluster.{find_raw}

abbrev pub two : Bytes → Json → Bytes → Json → Members
two key value key' value' = member key value (member key' value' end)

-- The messages, the keys of their maps in the order of json.Marshal; `cluster_id` and `table` are
-- those of the subscription, `token` is the access token.
module _ (cluster_id table : Bytes) where
  abbrev pub topic_of : Bytes
  topic_of = codes "realtime:" ++ table ++ codes ":" ++ cluster_id

  abbrev pub join_message : Bytes → Json
  join_message token =
      let change = object (
        member (codes "event") (string (codes "INSERT")) (
          member (codes "filter") (string (codes "cluster_id=eq." ++ cluster_id))
            (two (codes "schema") (string (codes "public")) (codes "table") (string table)))) in
      let config = object (
        member (codes "postgres_changes") (array (cons change nil)) (
          two (codes "presence")
            (object (two (codes "enabled") (bool true) (codes "key") (string cluster_id)))
            (codes "private") (bool true))) in
      object (
        member (codes "event") (string (codes "phx_join")) (
          member (codes "join_ref") (string (codes "1")) (
            member (codes "payload")
              (object (two (codes "access_token") (string token) (codes "config") config))
              (two (codes "ref") (string (codes "1")) (codes "topic") (string topic_of)))))

  -- `online_at` is the time in RFC 3339, `ref` the next number of the connection.
  abbrev pub track_message : Bytes → Bytes → Json
  track_message online_at ref =
      let presence = object (
        member (codes "event") (string (codes "track")) (
          two (codes "payload")
            (object
              (two (codes "cluster_id") (string cluster_id) (codes "online_at") (string online_at)))
            (codes "type") (string (codes "presence")))) in
      object (
        member (codes "event") (string (codes "presence")) (
          member (codes "join_ref") (string (codes "1")) (
            member (codes "payload") presence
              (two (codes "ref") (string ref) (codes "topic") (string topic_of)))))

-- What the read loop makes of a frame.
pub data Kind : Type 0 where
  ack : Kind
  insert : RawMessage → Kind
  skipped : Kind

-- The type and the record of a change
change : Members → Result (Bytes × RawMessage)
unfolding decode_string find_raw
change ms = decode_string (codes ".data.") (codes "type") ms >>= λ type.
    ok (type, find_raw (codes "record") ms)

-- The member `data` of the payload, empty where there is none
change_of : Result Members → Result (Bytes × RawMessage)
unfolding change find members
change_of (err e) = err e
change_of (ok ms) = elim (find (codes "data") ms) [
  | none ↦ ok ([], none)
  | some j ↦ members (codes "struct") (some j) >>= change
]

kind_of_change : Result (Bytes × RawMessage) → Kind
kind_of_change (err e) = skipped
kind_of_change (ok (type, record_value)) =
    if not (str_eq type (codes "INSERT")) then skipped else insert record_value

-- The topic, the event and the payload of a frame
pub record Frame : Type 0 where
  pub topic : Bytes
  pub event : Bytes
  pub payload : RawMessage

frame_of : RawMessage → Result Frame
unfolding members decode_string find_raw
frame_of raw = do
  ms ← members (codes "struct") raw
  topic ← decode_string (codes ".") (codes "topic") ms
  event ← decode_string (codes ".") (codes "event") ms
  ok (record { topic = topic; event = event; payload = find_raw (codes "payload") ms })

kind_of_frame : Result Frame → Kind
unfolding kind_of_change change_of members
kind_of_frame (err e) = skipped
kind_of_frame (ok f) =
    if str_eq f.event (codes "phx_reply") && str_eq f.topic (codes "phoenix")
    then ack
    else if not (str_eq f.event (codes "postgres_changes"))
    then skipped
    else kind_of_change (change_of (members (codes "struct") f.payload))

unfoldable pub classify : Result RawMessage → Kind
unfolding kind_of_frame frame_of
classify r = kind_of_frame (r >>= frame_of)

-- strings.Contains(s, t)
contains : Bytes → Bytes → Bool
unfolding has_prefix
contains [] t = is_empty t
contains (c ∷ s) t = has_prefix t (c ∷ s) || contains s t

-- The reason that is logged when a read fails: the one that was set, or what the error tells.
unfoldable pub close_reason_of : Option Bytes → (deadline_exceeded : Bool) → Bytes → Bytes
unfolding contains
close_reason_of (some reason) deadline_exceeded text_bytes = reason
close_reason_of none deadline_exceeded text_bytes =
    if deadline_exceeded
    then codes "read-timeout"
    else if contains text_bytes (codes "EOF")
    then codes "eof"
    else codes "peer-close"

-- The event, the status and the response of the answer to a join
decode_join : RawMessage → Result (Bytes × Bytes × RawMessage)
unfolding members decode_string find find_raw
decode_join raw = do
  ms ← members (codes "struct") raw
  event ← decode_string (codes ".") (codes "event") ms
  payload ← elim (find (codes "payload") ms) [
    | none ↦ ok end
    | some j ↦ members (codes "struct") (some j)
  ]
  status ← decode_string (codes ".payload.") (codes "status") payload
  ok (event, status, find_raw (codes "response") payload)

-- What the answer to a join is refused for; `quote` is `%q`, `text_of` is the text of a raw message.
unfoldable pub check_join :
    (Bytes → Bytes) → (RawMessage → Bytes) → Result RawMessage → Option Failure
unfolding decode_join
check_join quote text_of r = elim (r >>= decode_join) [
  | err e ↦ some (wrap (codes "parse phx_reply: ") e)
  | ok (event, status, response) ↦
      if not (str_eq event (codes "phx_reply"))
      then some (text (codes "expected phx_reply, got " ++ quote event))
      else if not (str_eq status (codes "ok"))
      then some (text (codes "join rejected: " ++ text_of response))
      else none
]
