-- ===== src/Supabase/Realtime/Subscribe/Story.antt =====
-- What a connection of a subscription does.
use proxmoxvue_agent.Supabase.Realtime.Frame.Join.{IsAccepted}
use proxmoxvue_agent.Base.{
  ℕ, ◌≡◌, Bool, Option, none, some, List, [], ◌∷◌, ◌++◌, if◌then◌else◌, Bytes,
}
use proxmoxvue_agent.Base.Program.{Event}
use proxmoxvue_agent.Base.Failure.{Failure, Result}
use proxmoxvue_agent.Base.Compose.{Stands}
use proxmoxvue_agent.Json.{RawMessage}
use proxmoxvue_agent.Supabase.Session.{Session}
use proxmoxvue_agent.Supabase.Session
use proxmoxvue_agent.Supabase.Realtime.Frame.{topic_of, join_message, track_message}
use proxmoxvue_agent.Supabase.Realtime.Subscribe.{
  Call, Reply, lost, frame, session, session_reply, dial, write_json, read, register_subscription,
  unregister_subscription, start_refresh_loop, catch_up, now, start_heartbeats, stop_heartbeats,
  close, next_ref,
}
use proxmoxvue_agent.Supabase.Realtime.Subscribe.Loop.{Events, LoopEnded}

-- Nothing but calls for a token.
abbrev pub ForToken : Events → Type 0
ForToken t = (u : List (Event Session.Call Session.Reply)) × Stands session session_reply [] u t

module _ (cluster_id table : Bytes) (stamp : ℕ → Bytes) (quote : Bytes → Bytes)
    (text_of : RawMessage → Bytes) (persists has_callback : Bool) where
  abbrev topic : Bytes
  topic = topic_of cluster_id table

  -- The events of the join, behind those for the token.
  abbrev pub joining : Bytes → Result RawMessage → Events → Events
  joining token x t =
      (start_refresh_loop, tt)
      ∷ (register_subscription topic, tt)
      ∷ (read, frame x)
      ∷ (write_json (join_message cluster_id table token), none)
      ∷ (dial, none)
      ∷ t

  abbrev pub catching_up : Events
  catching_up = if has_callback then (catch_up, tt) ∷ [] else []

  -- What stands in front of the read loop.
  pub data Joined : Events → Type 0 where
    joins :
        {t u : Events} (token : Bytes) (x : Result RawMessage) (time : ℕ) (ref : Bytes)
        (r : Option Failure)
        → ForToken t
        → IsAccepted x
        → u ≡ catching_up ++ joining token x t
        → Joined (
            (start_heartbeats, tt)
            ∷ (write_json (track_message cluster_id table (stamp time) ref), r)
            ∷ (next_ref, ref)
            ∷ (now, time)
            ∷ u)

  -- Why a connection is not joined: the join was not sent, or no answer that accepts it was read.
  pub data Unjoined : Option Failure → Events → Type 0 where
    not_sent : (e : Failure) → Unjoined (some e) []
    not_answered : (e : Failure) → Unjoined none ((read, lost e) ∷ [])
    not_accepted : (x : Result RawMessage) → ¬ (IsAccepted x) → Unjoined none ((read, frame x) ∷ [])

  pub data Subscribed : Option (Failure × Session) → Events → Type 0 where
    -- There is no token, and nothing is dialled.
    no_token : {t : Events} {s : Session} (e : Failure) → ForToken t → Subscribed (some (e, s)) t
    panicked : {t : Events} → ForToken t → Subscribed none t
    not_dialled :
        {t : Events} {s : Session} (e e' : Failure)
        → ForToken t
        → Subscribed (some (e', s)) ((dial, some e) ∷ t)
    -- The join was not sent, or not accepted, and the connection is closed at once.
    not_joined :
        {t u : Events} {s : Session} (e : Failure) (token : Bytes) (r : Option Failure)
        → ForToken t
        → Unjoined r u
        → Subscribed (some (e, s)) (
            (close, tt)
            ∷ (u ++ (write_json (join_message cluster_id table token), r) ∷ (dial, none) ∷ t))
    running : {base t : Events} → Joined base → LoopEnded base none t → Subscribed none t
    -- The subscription is taken out of the registry and the connection closed, whatever ended the loop.
    left :
        {base t : Events} {s : Session} (e : Failure)
        → Joined base
        → LoopEnded base (some e) t
        → Subscribed
            (some (e, s))
            ((close, tt) ∷ (unregister_subscription topic, tt) ∷ (stop_heartbeats, tt) ∷ t)

  abbrev Done : Session → Option Failure → Events → Type 0
  Done s ended t = Subscribed (elim ended [ none ↦ none | some e ↦ some (e, s) ]) t
