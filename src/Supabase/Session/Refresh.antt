-- ===== src/Supabase/Session/Refresh.antt =====
-- What a refresh does to the tokens.
use proxmoxvue_agent.Base.{
  ℕ, ◌≡◌, refl, ap, ◌∙◌, Bool, true, false, not, ◌||◌, Option, none, some, List, [], ◌∷◌, arith,
  ◌==◌, Bytes, codes, is_empty, if-split,
}
use proxmoxvue_agent.Supabase.Session.{
  Body, Call, Reply, now, post_token, persist, persist_tokens, after_persist, after_post, Method,
  refresh, Exchange, not_built, not_sent, not_read,
}
use proxmoxvue_agent.Base.Program.{ret, Event, World, run}
use proxmoxvue_agent.Base.Failure.{Failure, text, wrap, Result, ok, err}
use proxmoxvue_agent.Supabase.Session.{
  Session, Call, accept, Reply, RefreshResponse, decode_response, renewed, now, post_token, persist,
  response,
}
use proxmoxvue_agent.Base.Ledger.{Ends, run-Ends}
use proxmoxvue_agent.Supabase.Token.{refusal}

abbrev pub Events : Type 0
Events = List (Event Call Reply)

-- The ways in which a refresh ends: a panic, for want of a persist function; an error, which leaves
-- the session as it was; or new tokens, which were persisted before they came into use.
pub data Refreshed (persists : Bool) (s : Session) (past : Events)
    : Option (Result Bytes × Session) → Events → Type 0 where
  panicked : {t : Events} → persists ≡ false → Refreshed persists s past none t
  failed : {t : Events} (e : Failure) → Refreshed persists s past (some (err e, s)) t
  rotated :
      {status : ℕ} {body : Body} {parsed : RefreshResponse} (time : ℕ)
      → status ≡ 200
      → decode_response body.json ≡ ok parsed
      → is_empty parsed.access_token ≡ false
      → is_empty parsed.refresh_token ≡ false
      → Refreshed persists s past (some (ok parsed.access_token, renewed parsed time)) (
          (now, time)
          ∷ (persist parsed.refresh_token, none)
          ∷ (post_token s.refresh_token, response status body)
          ∷ past)

module _ (s : Session) (past : Events) (status : ℕ) (body : Body) (parsed : RefreshResponse)
    (read : decode_response body.json ≡ ok parsed) where
  abbrev Posted : Events
  Posted = (post_token s.refresh_token, response status body) ∷ past

  after_persist-Refreshed :
      (persists : Bool)
      → status ≡ 200
      → is_empty parsed.access_token ≡ false
      → is_empty parsed.refresh_token ≡ false
      → (saved : Option Failure)
      → Ends
          (Refreshed persists s past)
          ((persist parsed.refresh_token, saved) ∷ Posted)
          (after_persist s parsed saved)
  unfolding after_persist
  after_persist-Refreshed persists fine a r (some e) =
      failed (wrap (codes "persist rotated refresh token: ") e)
  after_persist-Refreshed persists fine a r none = λ time. rotated time fine read a r

  persist_tokens-Refreshed :
      (persists : Bool)
      → status ≡ 200
      → is_empty parsed.access_token ≡ false
      → is_empty parsed.refresh_token ≡ false
      → Ends (Refreshed persists s past) Posted (persist_tokens persists s parsed)
  unfolding persist_tokens
  persist_tokens-Refreshed false fine a r = panicked refl
  persist_tokens-Refreshed true fine a r = after_persist-Refreshed true fine a r

  accept-Refreshed :
      (persists : Bool) → Ends (Refreshed persists s past) Posted (accept persists s status parsed)
  unfolding accept
  accept-Refreshed persists =
      let P : Method Bytes → Type 0 = Ends (Refreshed persists s past) Posted in
      if-split P (not (status == 200)) (λ bad. failed (refusal status parsed))
        λ good.
          if-split P (is_empty parsed.access_token || is_empty parsed.refresh_token)
            (λ bad. failed (text (codes "refresh response missing tokens")))
            λ both. persist_tokens-Refreshed persists (ground arith) (ground arith) (ground arith)

after_post-Refreshed :
    (persists : Bool) (s : Session) (past : Events) (reply : Exchange)
    → Ends
        (Refreshed persists s past)
        ((post_token s.refresh_token, reply) ∷ past)
        (after_post persists s reply)
unfolding after_post
after_post-Refreshed persists s past (not_built e) = failed _
after_post-Refreshed persists s past (not_sent e) = failed _
after_post-Refreshed persists s past (not_read status e body) = failed _
after_post-Refreshed persists s past (response status body) = go (decode_response body.json) refl
  where
    go :
        (r : Result RefreshResponse)
        → decode_response body.json ≡ r
        → Ends
            (Refreshed persists s past)
            ((post_token s.refresh_token, response status body) ∷ past)
            (after_post persists s (response status body))
    go (err e) read = rw (read, after_post) (failed _)
    go (ok parsed) read =
        rw (read, after_post) (accept-Refreshed s past status body parsed read persists)

pub refresh-Ends :
    (persists : Bool) (s : Session) (past : Events)
    → Ends (Refreshed persists s past) past (refresh persists s)
unfolding refresh
refresh-Ends persists s past reply = after_post-Refreshed persists s past reply

-- In every world a refresh ends in one of three ways. A client without a persist function may panic.
-- On any error the session is as it was. Otherwise the tokens are those of a response with status
-- 200 to a request with the old refresh token, neither is empty, the new refresh token was written
-- to the configuration before the client took it over, and the time of expiry is counted from the
-- moment after that.
pub refresh-Refreshed :
    (persists : Bool) (s : Session) (w : World Call Reply)
    → let (out, t) = run w [] (refresh persists s) in Refreshed persists s [] out t
refresh-Refreshed persists s w =
    run-Ends (Refreshed persists s []) w [] (refresh persists s) (refresh-Ends persists s [])

accept-panics :
    (s : Session) (parsed : RefreshResponse)
    → is_empty parsed.access_token ≡ false
    → is_empty parsed.refresh_token ≡ false
    → accept false s 200 parsed ≡ ret none
unfolding accept persist_tokens
accept-panics s parsed a r = ground arith

after_post-panics :
    (s : Session) (body : Body) (parsed : RefreshResponse)
    → decode_response body.json ≡ ok parsed
    → is_empty parsed.access_token ≡ false
    → is_empty parsed.refresh_token ≡ false
    → after_post false s (response 200 body) ≡ ret none
unfolding after_post
after_post-panics s body parsed read a r = rw (read, after_post) (accept-panics s parsed a r)

-- A client that was built with no persist function, as by --register and --rotate-key, panics on
-- every answer of the token endpoint that brings new tokens.
pub refresh_panics :
    (s : Session) (w : World Call Reply) {body : Body} {parsed : RefreshResponse}
    → w [] (post_token s.refresh_token) ≡ response 200 body
    → decode_response body.json ≡ ok parsed
    → is_empty parsed.access_token ≡ false
    → is_empty parsed.refresh_token ≡ false
    → (run w [] (refresh false s)).0 ≡ none
unfolding refresh
refresh_panics s w {body} {parsed} reply read a r =
    let events : Exchange → Events = λ x. (post_token s.refresh_token, x) ∷ [] in
    ap (λ x. (run w (events x) (after_post false s x)).0) reply
    ∙ ap (λ p. (run w (events (response 200 body)) p).0) (after_post-panics s body parsed read a r)
