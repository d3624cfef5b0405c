-- ===== src/Supabase/Rest/Retry.antt =====
-- How often a request is sent.
use proxmoxvue_agent.Base.{
  ℕ, ◌+◌, ◌≤◌, ◌≡◌, refl, Bool, true, false, not, ◌||◌, Option, none, some, [], ◌∷◌, arith, ltb,
  ◌==◌, if◌then◌else◌, ==_iff, Bytes, is_empty, if-cases, if-split,
}
use proxmoxvue_agent.Base.Program.{ret, World, run}
use proxmoxvue_agent.Base.Failure.{Failure, Result, ok, err}
use proxmoxvue_agent.Supabase.Session.{
  Call, Reply, now, post_token, persist, attempt, Method, after_persist, persist_tokens, Session,
  refresh_skew,
}
use proxmoxvue_agent.Supabase.Token.{RefreshResponse}
use proxmoxvue_agent.Supabase.Session.Refresh.{Events}
use proxmoxvue_agent.Supabase.Session.{
  accept, after_post, refresh, access, Exchange, not_built, not_sent, not_read, response, Request,
}
use proxmoxvue_agent.Supabase.Rest.{with_auth, first, after_first, again, Answer, answer, next}
use proxmoxvue_agent.Supabase.Token.{decode_response}
use proxmoxvue_agent.Base.Ledger.{Ends, spent, earned, Ends-bind, run-Ends}

-- A request that is sent.
abbrev pub sent : Call → ℕ
sent (attempt request token) = 1
sent other = 0

-- One that the answer 401 came back to.
abbrev pub denied : (c : Call) → Reply c → ℕ
denied (attempt request token) (response status body) = if status == 401 then 1 else 0
denied (attempt request token) (not_read status e body) = if status == 401 then 1 else 0
denied (attempt request token) (not_sent e) = 0
denied (attempt request token) (not_built e) = 0
denied now r = 0
denied (post_token token) r = 0
denied (persist token) r = 0

-- What the last call of the run brought, where that was a request with an answer.
abbrev pub answered : Events → Option Answer
answered [] = none
answered ((attempt request token, not_built e) ∷ t) = none
answered ((attempt request token, not_sent e) ∷ t) = none
answered ((attempt request token, not_read status e body) ∷ t) = some (status, body)
answered ((attempt request token, response status body) ∷ t) = some (status, body)
answered ((now, r) ∷ t) = none
answered ((post_token token, r) ∷ t) = none
answered ((persist token, r) ∷ t) = none

-- A method panics only for want of a persist function, and fails for want of a token.
abbrev pub Survives : {A : Type 0} → Bool → Option (Result A × Session) → Events → Type 0
Survives persists none t = persists ≡ false
Survives persists (some (err e, s)) t = answered t ≡ none
Survives persists (some (ok a, s)) t = Unit

-- How many requests were sent, and how many of them were denied.
abbrev Sent : {A : Type 0} → Bool → ℕ → ℕ → Option (Result A × Session) → Events → Type 0
Sent persists n k out t = (spent sent t ≡ n) × (earned denied t ≡ k) × Survives persists out t

-- A method that sends no request: both numbers stay as they are.
abbrev Quiet : {A : Type 0} → Bool → ℕ → ℕ → Method A → Type 0
Quiet {A} persists n k m =
    (past : Events)
    → (spent sent past ≡ n) × (earned denied past ≡ k)
    → Ends (Sent persists n k) past m

-- The same, behind a call that is no request with an answer.
abbrev Behind : {A : Type 0} → Bool → ℕ → ℕ → Method A → Type 0
Behind {A} persists n k m =
    (past : Events)
    → (spent sent past ≡ n) × (earned denied past ≡ k) × (answered past ≡ none)
    → Ends (Sent persists n k) past m

module _ (n k : ℕ) where
  after_persist-Behind :
      (persists : Bool) (s : Session) (parsed : RefreshResponse) (saved : Option Failure)
      → Behind persists n k (after_persist s parsed saved)
  unfolding after_persist
  after_persist-Behind persists s parsed none past h = λ time. (ground arith, ground arith, tt)
  after_persist-Behind persists s parsed (some e) past h = h

  persist_tokens-Behind :
      (persists : Bool) (s : Session) (parsed : RefreshResponse)
      → Behind persists n k (persist_tokens persists s parsed)
  unfolding persist_tokens
  persist_tokens-Behind false s parsed past h = (h.0, h.1, refl)
  persist_tokens-Behind true s parsed past h = λ saved.
      after_persist-Behind true s parsed saved ((persist parsed.refresh_token, saved) ∷ past)
        (ground arith, ground arith, refl)

  accept-Behind :
      (persists : Bool) (s : Session) (status : ℕ) (parsed : RefreshResponse)
      → Behind persists n k (accept persists s status parsed)
  unfolding accept
  accept-Behind persists s status parsed past h =
      let P : Method Bytes → Type 0 = Ends (Sent persists n k) past in
      if-cases P (not (status == 200)) h (
        if-cases P (is_empty parsed.access_token || is_empty parsed.refresh_token) h
          (persist_tokens-Behind persists s parsed past h))

  after_post-Behind :
      (persists : Bool) (s : Session) (reply : Exchange)
      → Behind persists n k (after_post persists s reply)
  unfolding after_post
  after_post-Behind persists s (not_built e) past h = h
  after_post-Behind persists s (not_sent e) past h = h
  after_post-Behind persists s (not_read status e body) past h = h
  after_post-Behind persists s (response status body) past h = go (decode_response body.json) refl
    where
      go :
          (r : Result RefreshResponse)
          → decode_response body.json ≡ r
          → Ends (Sent persists n k) past (after_post persists s (response status body))
      go (err e) read = rw (read, after_post) h
      go (ok parsed) read = rw (read, after_post) (accept-Behind persists s status parsed past h)

  refresh-Quiet : (persists : Bool) (s : Session) → Quiet persists n k (refresh persists s)
  unfolding refresh
  refresh-Quiet persists s past h = λ reply.
      after_post-Behind persists s reply ((post_token s.refresh_token, reply) ∷ past)
        (ground arith, ground arith, refl)

  access-Quiet : (persists : Bool) (s : Session) → Quiet persists n k (access persists s)
  unfolding access
  access-Quiet persists s past h =
      if-cases (Ends (Sent persists n k) past) (is_empty s.access_token)
        (refresh-Quiet persists s past h)
        λ time.
          let later : Events = (now, time) ∷ past in
          let same : (spent sent later ≡ n) × (earned denied later ≡ k) = ground arith in
          if-cases (Ends (Sent persists n k) later) (ltb (time + refresh_skew) s.expires_at)
            (same.0, same.1, tt) (refresh-Quiet persists s later same)

-- How a request with one new try ends.
pub data Tried (persists : Bool) (request : Request)
    : Option (Result Answer × Session) → Events → Type 0 where
  -- A panic, for want of a persist function; at most two requests were sent.
  no_answer : {t : Events} → spent sent t ≤ 2 → persists ≡ false → Tried persists request none t
  -- An error: the last call was no request, or one that brought no answer.
  failed :
      {t : Events} {s : Session} (e : Failure)
      → spent sent t ≤ 2
      → answered t ≡ none
      → Tried persists request (some (err e, s)) t
  -- The only request brought the answer, and it was not 401.
  at_first :
      {past : Events} {s : Session} {token : Bytes} {reply : Exchange} {a : Answer}
      → spent sent past ≡ 0
      → answer reply ≡ ok a
      → (a.0 == 401) ≡ false
      → Tried persists request (some (ok a, s)) ((attempt request token, reply) ∷ past)
  -- The first request was denied, and this is what the second brought, be it 401 again.
  at_second :
      {past : Events} {s : Session} {token : Bytes} {reply : Exchange} {a : Answer}
      → spent sent past ≡ 1
      → earned denied past ≡ 1
      → answer reply ≡ ok a
      → Tried persists request (some (ok a, s)) ((attempt request token, reply) ∷ past)

module _ (persists : Bool) (request : Request) where
  answer-answered :
      (reply : Exchange) (token : Bytes) (past : Events) {e : Failure}
      → answer reply ≡ err e
      → answered ((attempt request token, reply) ∷ past) ≡ none
  unfolding answer
  answer-answered (not_built e) token past same = refl
  answer-answered (not_sent e) token past same = refl
  answer-answered (not_read status e body) token past same = absurd (ground arith)
  answer-answered (response status body) token past same = absurd (ground arith)

  again-Tried :
      (s : Session) (r : Result Bytes) (past : Events)
      → (spent sent past ≡ 1) × (earned denied past ≡ 1) × Survives persists (some (r, s)) past
      → Ends (Tried persists request) past (again request r s)
  unfolding again
  again-Tried s (err e) past h = failed e (ground arith) h.2
  again-Tried s (ok token) past h = λ reply. ended reply (answer reply) refl
    where
      ended :
          (reply : Exchange) (a : Result Answer)
          → answer reply ≡ a
          → Tried persists request (some (answer reply, s)) ((attempt request token, reply) ∷ past)
      ended reply (err e) same =
          rw same (failed e (ground arith) (answer-answered reply token past same))
      ended reply (ok a) same = rw same (at_second h.0 h.1 same)

  next-Tried :
      (m : Method Bytes) (f : Result Bytes → Session → Method Answer) {n k : ℕ} (past : Events)
      → n ≤ 2
      → Ends (Sent persists n k) past m
      → ((r : Result Bytes) (s : Session) (t : Events)
          → (spent sent t ≡ n) × (earned denied t ≡ k) × Survives persists (some (r, s)) t
          → Ends (Tried persists request) t (f r s))
      → Ends (Tried persists request) past (next m f)
  next-Tried m f {n} {k} past few quiet go =
      Ends-bind (Sent persists n k) (Tried persists request) past m
        (elim [ none ↦ ret none | some (r, s) ↦ f r s ]) quiet after
    where
      after :
          (out : Option (Result Bytes × Session)) (t : Events)
          → Sent persists n k out t
          → Ends (Tried persists request) t (elim out [ none ↦ ret none | some (r, s) ↦ f r s ])
      after none t h = no_answer (ground arith) h.2
      after (some (r, s)) t h = go r s t h

  denied-answer :
      (token : Bytes) (reply : Exchange) (a : Answer)
      → answer reply ≡ ok a
      → a.0 ≡ 401
      → denied (attempt request token) reply ≡ 1
  unfolding answer
  denied-answer token (not_built e) a same denial = cc
  denied-answer token (not_sent e) a same denial = cc
  denied-answer token (not_read status e body) a same denial =
      let is_401 : status ≡ 401 = cc in rw is_401 refl
  denied-answer token (response status body) a same denial =
      let is_401 : status ≡ 401 = cc in rw is_401 refl

  after_first-Tried :
      (s : Session) (token : Bytes) (reply : Exchange) (past : Events)
      → (spent sent past ≡ 0) × (earned denied past ≡ 0)
      → (r : Result Answer) → answer reply ≡ r
      → Ends
          (Tried persists request)
          ((attempt request token, reply) ∷ past)
          (after_first persists request s r)
  unfolding after_first
  after_first-Tried s token reply past h (err e) same =
      failed e (ground arith) (answer-answered reply token past same)
  after_first-Tried s token reply past h (ok a) same =
      let sofar : Events = (attempt request token, reply) ∷ past in
      if-split (Ends (Tried persists request) sofar) (a.0 == 401)
        (λ denial.
          let one = denied-answer token reply a same ((==_iff a.0 401).0 denial) in
          next-Tried (refresh persists s) (again request) sofar (omega arith)
            (refresh-Quiet 1 1 persists s sofar (ground arith))
            (λ r s' t now_h. again-Tried s' r t now_h))
        λ fine. at_first h.0 same fine

  first-Tried :
      (r : Result Bytes) (s : Session) (past : Events)
      → (spent sent past ≡ 0) × (earned denied past ≡ 0) × Survives persists (some (r, s)) past
      → Ends (Tried persists request) past (first persists request r s)
  unfolding first
  first-Tried (err e) s past h = failed e (ground arith) h.2
  first-Tried (ok token) s past h =
      λ reply. after_first-Tried s token reply past (h.0, h.1) (answer reply) refl

  pub with_auth-Ends :
      (s : Session) (past : Events)
      → (spent sent past ≡ 0) × (earned denied past ≡ 0)
      → Ends (Tried persists request) past (with_auth persists request s)
  unfolding with_auth
  with_auth-Ends s past h =
      next-Tried (access persists s) (first persists request) past (omega arith)
        (access-Quiet 0 0 persists s past h) (λ r s' t h'. first-Tried r s' t h')

  -- In every world a request is sent at most twice. An answer comes back either from the only
  -- request, and then it is not 401, or from the second, and then the first was answered by 401. There
  -- is no panic but for want of a persist function.
  pub with_auth-Tried :
      (s : Session) (w : World Call Reply)
      → let (out, t) = run w [] (with_auth persists request s) in Tried persists request out t
  with_auth-Tried s w =
      run-Ends (Tried persists request) w [] (with_auth persists request s)
        (with_auth-Ends s [] (refl, refl))
