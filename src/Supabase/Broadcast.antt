-- ===== src/Supabase/Broadcast.antt =====
-- internal/supabase/client.go: the registry of subscriptions, and the refresh loop's work on it.
pub mod Told
use proxmoxvue_agent.Base.{
  ℕ, zero, suc, ◌+◌, ◌-◌, ◌*◌, ◌/◌, ◌%◌, ◌^◌, ◌≤◌, ◌<◌, ◌≡◌, ◌≢◌, refl, sym, ap, ◌∙◌, ◌↔◌, ◌⊎◌, inl,
  inr, Bool, true, false, not, ◌&&◌, ◌||◌, Option, none, some, List, [], ◌∷◌, ◌++◌, map, append-nil,
  append_assoc, arith, ltb, leb, ◌==◌, if◌then◌else◌, ==_iff, Bool-cases, Option-cases, &&-true,
  ||-true, length, take, drop, all, any, All, Bytes, codes, str_eq, str_eq_iff, str_eq→eq,
  str_eq_refl, is_empty, format_nat, if-cases, if-split,
}
use proxmoxvue_agent.Base.Program.{Program, ret, call, ◌>>=◌, ◌>>◌, perform, Event, World, run}
use proxmoxvue_agent.Base.Int.{
  ℤ, pos, negsuc, is_zero, is_negative, is_positive, format_int, int_eq,
}
use proxmoxvue_agent.Base.Failure.{
  Failure, text, refresh_revoked, post_join_closed, wrap, message, is_revoked, Result, ok, err,
  wrap_err,
}
use proxmoxvue_agent.Base.Compose.{lift}
use proxmoxvue_agent.Json.{Json, string, object, member, end}
use proxmoxvue_agent.Supabase.Session.{Session, refresh}
use proxmoxvue_agent.Supabase.Session

-- type activeSub struct, with a number for its connection
pub record ActiveSub : Type 0 where
  pub topic : Bytes
  pub connection : ℕ

-- activeSubs; a map has one entry for a key, and an order that no one can rely on.
abbrev pub Registry : Type 0
Registry = List ActiveSub

-- delete(c.activeSubs, topic), in unregisterSubscription(topic)
unfoldable pub unregister_subscription : Bytes → Registry → Registry
unregister_subscription topic [] = []
unregister_subscription topic (sub ∷ rest) =
    let rest' = unregister_subscription topic rest in
    if str_eq sub.topic topic then rest' else sub ∷ rest'

-- c.activeSubs[sub.topic] = sub, in registerSubscription(sub)
unfoldable pub register_subscription : ActiveSub → Registry → Registry
register_subscription sub subs = sub ∷ unregister_subscription sub.topic subs

pub data Call : Type 0 where
  session : Session.Call → Call
  next_ref : ActiveSub → Call
  -- writeJSON over the connection of a subscription
  write_json : ActiveSub → (message : Json) → Call

abbrev pub Reply : Call → Type 0
Reply (session c) = Session.Reply c
Reply (next_ref sub) = Bytes
Reply (write_json sub message) = Option Failure

abbrev pub session_reply : (c : Session.Call) → Reply (session c) → Session.Reply c
session_reply c r = r

-- The event that brings a new token, its keys in the order of json.Marshal
abbrev pub token_message : Bytes → Bytes → Bytes → Json
token_message topic token ref = object (
    member (codes "event") (string (codes "access_token")) (
      member (codes "payload") (object (member (codes "access_token") (string token) end))
        (member (codes "ref") (string ref) (member (codes "topic") (string topic) end))))

-- pushAccessToken(sub, token)
unfoldable pub push_access_token : ActiveSub → Bytes → Program Call Reply (Option Failure)
push_access_token sub token = do
  ref ← perform (next_ref sub)
  perform (write_json sub (token_message sub.topic token ref))

-- pushed, or one more behind a push with no error
abbrev pub counted : Option Failure → ℕ → ℕ
counted none pushed = suc pushed
counted (some e) pushed = pushed

-- The loop over the subscriptions
unfoldable pub push_all : Bytes → Registry → ℕ → Program {0} Call Reply ℕ
push_all token [] pushed = ret pushed
push_all token (sub ∷ rest) pushed =
    push_access_token sub token >>= λ failed. push_all token rest (counted failed pushed)

unfoldable pub after_refresh :
    Registry → Option (Result Bytes × Session) → Program Call Reply (Option (Option ℕ × Session))
after_refresh subs none = ret none
after_refresh subs (some (err e, s)) = ret (some (none, s))
after_refresh subs (some (ok token, s)) =
    push_all token subs 0 >>= λ pushed. ret (some (some pushed, s))

-- refreshAndPushAll(), for the subscriptions in the order in which the map gives them: how many were
-- reached, none where there is no fresh token. None of all is a panic.
unfoldable pub refresh_and_push_all :
    Bool → Registry → Session → Program Call Reply (Option (Option ℕ × Session))
refresh_and_push_all persists subs s =
    lift session session_reply (refresh persists s) >>= after_refresh subs
