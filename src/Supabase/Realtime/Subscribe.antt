-- ===== src/Supabase/Realtime/Subscribe.antt =====
-- internal/supabase/realtime.go: subscribeOnce, one connection of a subscription, from the token
-- to the end of its read loop. Of what runs beside it only the start and the stop are calls.
pub mod Loop
pub mod Story
use proxmoxvue_agent.Base.{
  ℕ, zero, suc, ◌+◌, ◌-◌, ◌*◌, ◌/◌, ◌%◌, ◌^◌, ◌≤◌, ◌<◌, ◌≡◌, ◌≢◌, refl, sym, ap, ◌∙◌, ◌↔◌, ◌⊎◌, inl,
  inr, Bool, true, false, not, ◌&&◌, ◌||◌, Option, none, some, List, [], ◌∷◌, ◌++◌, map, append-nil,
  append_assoc, arith, ltb, leb, ◌==◌, if◌then◌else◌, ==_iff, Bool-cases, Option-cases, &&-true,
  ||-true, length, take, drop, all, any, All, Bytes, codes, str_eq, str_eq_iff, str_eq→eq,
  str_eq_refl, is_empty, format_nat, if-cases, if-split,
}
use proxmoxvue_agent.Base.Program.{Program, ret, call, ◌>>=◌, ◌>>◌, perform, Event, World, run}
use proxmoxvue_agent.Base.Int.{
  ℤ, pos, negsuc, is_zero, is_negative, is_positive, format_int, int_eq,
}
use proxmoxvue_agent.Base.Failure.{
  Failure, text, refresh_revoked, post_join_closed, wrap, message, is_revoked, Result, ok, err,
  wrap_err,
}
use proxmoxvue_agent.Base.{to_lower, has_prefix}
use proxmoxvue_agent.Base.Compose.{lift}
use proxmoxvue_agent.Json.{
  Json, Items, nil, cons, null, bool, object, array, string, member, end, Members, RawMessage,
  members, find, decode_string,
}
use proxmoxvue_agent.Proxmox.Cluster.{find_raw}
use proxmoxvue_agent.Supabase.Session.{Session, access}
use proxmoxvue_agent.Supabase.Realtime.Frame.{
  Kind, ack, insert, skipped, classify, check_join, topic_of, join_message, track_message,
}
use proxmoxvue_agent.Supabase.Session

-- What conn.Read comes to: an error, or a text with the value that json.Unmarshal reads it as.
pub data Read : Type 0 where
  lost : Failure → Read
  frame : Result RawMessage → Read

pub data Call : Type 0 where
  session : Session.Call → Call
  -- websocket.Dial
  dial : Call
  -- writeJSON, which sends this value
  write_json : Json → Call
  -- conn.Read
  read : Call
  register_subscription : (topic : Bytes) → Call
  unregister_subscription : (topic : Bytes) → Call
  start_refresh_loop : Call
  -- go onConnected(ctx), where there is such a function
  catch_up : Call
  now : Call
  -- nextRef(), which the refresh loop calls too
  next_ref : Call
  start_heartbeats : Call
  stop_heartbeats : Call
  -- hbAcked.Add(1)
  count_ack : Call
  -- out <- record, or the error of a context that is done
  deliver : (record_value : RawMessage) → Call
  close : Call

abbrev pub Reply : Call → Type 0
Reply (session c) = Session.Reply c
Reply dial = Option Failure
Reply (write_json message) = Option Failure
Reply read = Read
Reply (register_subscription topic) = Unit
Reply (unregister_subscription topic) = Unit
Reply start_refresh_loop = Unit
Reply catch_up = Unit
Reply now = ℕ
Reply next_ref = Bytes
Reply start_heartbeats = Unit
Reply stop_heartbeats = Unit
Reply count_ack = Unit
Reply (deliver record_value) = Option Failure
Reply close = Unit

abbrev pub session_reply : (c : Session.Call) → Reply (session c) → Session.Reply c
session_reply c r = r

abbrev pub Loop : Type 0
Loop = Program Call Reply (Option Failure)

unfoldable pub after_deliver : Loop → Option Failure → Loop
after_deliver rest none = rest
after_deliver rest (some e) = ret (some e)

unfoldable pub on_kind : Loop → Kind → Loop
on_kind rest ack = call count_ack (λ done. rest)
on_kind rest (insert record_value) = call (deliver record_value) (after_deliver rest)
on_kind rest skipped = rest

unfoldable pub on_read : Loop → Read → Loop
on_read rest (lost e) = ret (some post_join_closed)
on_read rest (frame f) = on_kind rest (classify f)

-- The read loop, with fuel for so many frames; none is a loop that still runs.
unfoldable pub read_loop : ℕ → Loop
read_loop zero = ret none
read_loop (suc n) = call read (on_read (read_loop n))

module _ (cluster_id table : Bytes) where
  -- `stamp` prints a time, `quote` is `%q`, `text_of` is the text of a raw message.
  module _ (stamp : ℕ → Bytes) (quote : Bytes → Bytes) (text_of : RawMessage → Bytes) where
    -- The error of a connection, behind its deferred Close
    abbrev pub closing : Failure → Loop
    closing e = do perform close; ret (some e)

    -- The deferred calls of a connection that was joined
    unfoldable pub leave : Option Failure → Loop
    leave none = ret none
    leave (some e) = do
      perform stop_heartbeats
      perform (unregister_subscription (topic_of cluster_id table))
      perform close
      ret (some e)

    unfoldable pub joined : Bool → ℕ → Loop
    joined has_callback fuel = do
      perform (register_subscription (topic_of cluster_id table))
      perform start_refresh_loop
      if has_callback then perform catch_up else ret tt
      time ← perform now
      ref ← perform next_ref
      perform (write_json (track_message cluster_id table (stamp time) ref))
      perform start_heartbeats
      ended ← read_loop fuel
      leave ended

    unfoldable pub after_reply : Bool → ℕ → Read → Loop
    after_reply has_callback fuel (lost e) = closing (wrap (codes "wait for phx_reply: ") e)
    after_reply has_callback fuel (frame f) = elim (check_join quote text_of f) [
      | none ↦ joined has_callback fuel
      | some e ↦ closing e
    ]

    unfoldable pub after_join : Bool → ℕ → Option Failure → Loop
    after_join has_callback fuel (some e) = closing (wrap (codes "send join: ") e)
    after_join has_callback fuel none = call read (after_reply has_callback fuel)

    unfoldable pub after_dial : Bool → ℕ → Bytes → Option Failure → Loop
    after_dial has_callback fuel token (some e) = ret (some (wrap (codes "ws dial: ") e))
    after_dial has_callback fuel token none =
        call (write_json (join_message cluster_id table token)) (after_join has_callback fuel)

    unfoldable pub after_access :
        Bool → ℕ → Option (Result Bytes × Session) → Program Call Reply (Option (Failure × Session))
    after_access has_callback fuel none = ret none
    after_access has_callback fuel (some (err e, s)) =
        ret (some (wrap (codes "get access token: ") e, s))
    after_access has_callback fuel (some (ok token, s)) = do
      ended ← call dial (after_dial has_callback fuel token)
      ret (elim ended [ none ↦ none | some e ↦ some (e, s) ])

    -- subscribeOnce(ctx, clusterID, table, onConnected, out), with fuel for so many frames. None is a
    -- connection that still runs, or a panic.
    unfoldable pub subscribe_once :
        Bool → Bool → ℕ → Session → Program Call Reply (Option (Failure × Session))
    subscribe_once persists has_callback fuel s =
        lift session session_reply (access persists s) >>= after_access has_callback fuel
