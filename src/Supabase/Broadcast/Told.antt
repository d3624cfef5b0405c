-- ===== src/Supabase/Broadcast/Told.antt =====
-- Whom the refresh loop tells.
use proxmoxvue_agent.Base.{ℕ, Bool, Option, none, some, List, [], ◌∷◌, Bytes}
use proxmoxvue_agent.Base.Program.{Event, World, run}
use proxmoxvue_agent.Base.Failure.{Failure, Result, ok, err}
use proxmoxvue_agent.Base.Compose.{lift, Stands, none_yet, lift-Ends}
use proxmoxvue_agent.Base.Ledger.{Ends, Ends-bind, Ends-mono, run-Ends}
use proxmoxvue_agent.Supabase.Session.{Session, refresh}
use proxmoxvue_agent.Supabase.Session.Refresh
use proxmoxvue_agent.Supabase.Session.Refresh.{Refreshed, refresh-Ends}
use proxmoxvue_agent.Supabase.Broadcast.{
  ActiveSub, Registry, Call, Reply, session, next_ref, write_json, session_reply, token_message,
  push_access_token, counted, push_all, after_refresh, refresh_and_push_all,
}

abbrev pub Events : Type 0
Events = List (Event Call Reply)

-- Behind the events of `base`, these subscriptions are left, so many were reached before, and in the end so many.
pub data Told (token : Bytes) : Registry → ℕ → Events → ℕ → Events → Type 0 where
  everyone : {pushed : ℕ} {t : Events} → Told token [] pushed t pushed t
  -- The next subscription gets the token, or an error that does not keep the others from theirs.
  and_then :
      {rest : Registry} {pushed pushed' : ℕ} {t t' : Events} (sub : ActiveSub) (ref : Bytes)
      (failed : Option Failure)
      → Told token rest
          (counted failed pushed)
          ((write_json sub (token_message sub.topic token ref), failed) ∷ (next_ref sub, ref) ∷ t)
          pushed'
          t'
      → Told token (sub ∷ rest) pushed t pushed' t'

push_all-Told :
    (token : Bytes) (subs : Registry) (pushed : ℕ) (t : Events)
    → Ends (Told token subs pushed t) t (push_all token subs pushed)
unfolding push_all push_access_token
push_all-Told token [] pushed t = everyone
push_all-Told token (sub ∷ rest) pushed t = λ ref failed.
    let t' : Events =
      (write_json sub (token_message sub.topic token ref), failed) ∷ (next_ref sub, ref) ∷ t in
    Ends-mono (Told token rest (counted failed pushed) t') (Told token (sub ∷ rest) pushed t) t'
      (push_all token rest (counted failed pushed)) (λ pushed' t'' h. and_then sub ref failed h)
      (push_all-Told token rest (counted failed pushed) t')

module _ (persists : Bool) (s : Session) (subs : Registry) where
  -- The events of the refresh
  abbrev ForRefresh : Option (Result Bytes × Session) → Events → Type 0
  ForRefresh out t =
      (u : Refresh.Events) × Stands session session_reply [] u t × Refreshed persists s [] out u

  pub data Broadcast : Option (Option ℕ × Session) → Events → Type 0 where
    panicked : {t : Events} → ForRefresh none t → Broadcast none t
    -- No one is told of a token that is not there.
    not_refreshed :
        {t : Events} {s' : Session} (e : Failure)
        → ForRefresh (some (err e, s')) t
        → Broadcast (some (none, s')) t
    told :
        {t t' : Events} {s' : Session} (token : Bytes) (pushed : ℕ)
        → ForRefresh (some (ok token, s')) t
        → Told token subs 0 t pushed t'
        → Broadcast (some (some pushed, s')) t'

  refreshed-Broadcast :
      (out : Option (Result Bytes × Session)) (t : Events)
      → ForRefresh out t
      → Ends Broadcast t (after_refresh subs out)
  unfolding after_refresh
  refreshed-Broadcast none t h = panicked h
  refreshed-Broadcast (some (err e, s')) t h = not_refreshed e h
  refreshed-Broadcast (some (ok token, s')) t h =
      Ends-bind (Told token subs 0 t) Broadcast t (push_all token subs 0) _
        (push_all-Told token subs 0 t) (λ pushed t' h'. told token pushed h h')

  -- In every world, a tick of the refresh loop refreshes the tokens, and sends each subscription of the
  -- registry, once and in their order, the very access token that came with the refresh, over its own
  -- connection, on its own topic and with a number of its own; a push that fails keeps none of the others from
  -- theirs, and counts not. Without new tokens no one is told anything.
  pub refresh_and_push_all-Broadcast :
      (w : World Call Reply)
      → let (out, t) = run w [] (refresh_and_push_all persists subs s) in Broadcast out t
  unfolding refresh_and_push_all
  refresh_and_push_all-Broadcast w =
      run-Ends Broadcast w [] (refresh_and_push_all persists subs s) (
        Ends-bind ForRefresh Broadcast [] (lift session session_reply (refresh persists s))
          (after_refresh subs)
          (lift-Ends session session_reply (Refreshed persists s []) [] [] [] (refresh persists s)
            none_yet (refresh-Ends persists s []))
          refreshed-Broadcast)
