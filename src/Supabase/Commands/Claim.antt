-- ===== src/Supabase/Commands/Claim.antt =====
-- When a claim counts as won.
use proxmoxvue_agent.Base.{
  ℕ, ◌≤◌, ◌≡◌, refl, Bool, false, Option, none, some, [], ◌∷◌, ◌++◌, arith, Bytes, codes, if-split,
  true, ◌<◌, ◌⊎◌, inr, inl,
}
use proxmoxvue_agent.Base.Program.{ret, World, run}
use proxmoxvue_agent.Base.Int.{ℤ, format_int}
use proxmoxvue_agent.Base.Failure.{Failure, Result, ok, err, wrap_err}
use proxmoxvue_agent.Supabase.Session.{
  Session, Method, Call, Reply, Exchange, Request, now, attempt, not_built, not_sent, not_read,
  response,
}
use proxmoxvue_agent.Supabase.Session.Refresh.{Events}
use proxmoxvue_agent.Supabase.Rest.{
  done, map_result, patch_row_returning, with_auth, Answer, answer, is_refused, rows_of, returned,
}
use proxmoxvue_agent.Supabase.Rest.Retry.{
  sent, answered, Tried, with_auth-Ends, no_answer, failed, at_first, at_second,
}
use proxmoxvue_agent.Supabase.Commands.{claim_row, has_rows, row_path, claim_body}
use proxmoxvue_agent.Json.{
  Json, null, bool, number, string, array, object, RawMessage, Items, nil, cons, member, end,
}
use proxmoxvue_agent.Base.Ledger.{Ends, Ends-bind, run-Ends, spent}

module _ (stamp : ℕ → Bytes) (persists : Bool) (table : Bytes) (id : ℤ) where
  -- The request of a claim that starts at a time: the row with this id, if it is pending, becomes claimed.
  abbrev claim_request : ℕ → Request
  claim_request time = record {
    method = codes "PATCH";
    path = codes "/" ++ table ++ codes "?id=eq." ++ format_int id ++ codes "&status=eq.pending";
    body = some (
        object (
          member (codes "claimed_at") (string (stamp time))
            (member (codes "status") (string (codes "claimed")) end)));
    prefer = codes "return=representation";
  }

  -- The last call of the run brought no verdict: it was no request or one without an answer, its status
  -- is not 2xx, or there are no rows to be read in it.
  pub data Undecided (t : Events) : Type 0 where
    unanswered : answered t ≡ none → Undecided t
    refused : (a : Answer) → answered t ≡ some a → (a.0 < 200) ⊎ (300 ≤ a.0) → Undecided t
    unreadable :
        (a : Answer)
        → answered t ≡ some a
        → ((items : Items) → ¬ (a.1.json ≡ ok (some (array items))))
        → ¬ (a.1.json ≡ ok (some null))
        → Undecided t

  -- An answer behind one other request at most, with a status of 2xx.
  pub record Decides (past : Events) (reply : Exchange) (a : Answer) : Type 0 where
    pub few : spent sent past ≤ 1
    pub same : answer reply ≡ ok a
    pub low : 200 ≤ a.0
    pub high : a.0 < 300

  -- How a claim ends: the verdict is that of the last answer, which has a status of 2xx and the rows
  -- that the update changed.
  pub data Claimed : Option (Result Bool × Session) → Events → Type 0 where
    -- A panic.
    no_verdict : {t : Events} → spent sent t ≤ 2 → persists ≡ false → Claimed none t
    claim_failed :
        {t : Events} {s : Session} (e : Failure)
        → spent sent t ≤ 2
        → Undecided t
        → Claimed (some (err e, s)) t
    won :
        {past : Events} {s : Session} {token : Bytes} {reply : Exchange} {a : Answer} (time : ℕ)
        (row : Json) (rest : Items)
        → Decides past reply a
        → a.1.json ≡ ok (some (array (cons row rest)))
        → Claimed (some (ok true, s)) ((attempt (claim_request time) token, reply) ∷ past)
    lost :
        {past : Events} {s : Session} {token : Bytes} {reply : Exchange} {a : Answer} (time : ℕ)
        → Decides past reply a
        → (a.1.json ≡ ok (some (array nil))) ⊎ (a.1.json ≡ ok (some null))
        → Claimed (some (ok false, s)) ((attempt (claim_request time) token, reply) ∷ past)

  pub Claimed-none : {t : Events} → Claimed none t → persists ≡ false
  Claimed-none (no_verdict few panics) = panics

  abbrev path : Bytes
  path = row_path table id ++ codes "&status=eq.pending"

  abbrev tried : ℕ → Session → Method Answer
  tried time s = with_auth persists (claim_request time) s

  -- What the code makes of an answer.
  abbrev judge : Result Answer → Result Bool
  judge r = map_result (λ rows. ok (has_rows rows)) (map_result (returned path) r)

  answer-answered :
      (request : Request) (token : Bytes) (reply : Exchange) (past : Events) {a : Answer}
      → answer reply ≡ ok a
      → answered ((attempt request token, reply) ∷ past) ≡ some a
  unfolding answer
  answer-answered request token (not_built e) past same = absurd (ground arith)
  answer-answered request token (not_sent e) past same = absurd (ground arith)
  answer-answered request token (not_read status e body) past same = ground arith
  answer-answered request token (response status body) past same = ground arith

  module _ (past : Events) (s : Session) (token : Bytes) (reply : Exchange) (time : ℕ) where
    abbrev sofar : Events
    sofar = (attempt (claim_request time) token, reply) ∷ past

    unread :
        (a : Answer) (e : Failure)
        → Decides past reply a
        → ((items : Items) → ¬ (a.1.json ≡ ok (some (array items))))
        → ¬ (a.1.json ≡ ok (some null))
        → Claimed (some (err e, s)) sofar
    unread a e h no_array no_null = claim_failed e (omega (arith, h.few)) (
        unreadable a (answer-answered (claim_request time) token reply past h.same) no_array
          no_null)

    rows_judged :
        (a : Answer) (json : Result RawMessage)
        → Decides past reply a
        → a.1.json ≡ json
        → Claimed
            (some (
              map_result
                  (λ rows. ok (has_rows rows))
                  (wrap_err (codes "parse response: ") (rows_of json)),
              s,
            ))
            sofar
    unfolding rows_of
    rows_judged a (err e) h read =
        unread a _ h (λ items e. absurd (ground arith)) (λ e. absurd (ground arith))
    rows_judged a (ok none) h read =
        unread a _ h (λ items e. absurd (ground arith)) (λ e. absurd (ground arith))
    rows_judged a (ok (some null)) h read = lost time h (inr read)
    rows_judged a (ok (some (bool b))) h read =
        unread a _ h (λ items e. absurd (ground arith)) (λ e. absurd (ground arith))
    rows_judged a (ok (some (number literal))) h read =
        unread a _ h (λ items e. absurd (ground arith)) (λ e. absurd (ground arith))
    rows_judged a (ok (some (string t))) h read =
        unread a _ h (λ items e. absurd (ground arith)) (λ e. absurd (ground arith))
    rows_judged a (ok (some (object ms))) h read =
        unread a _ h (λ items e. absurd (ground arith)) (λ e. absurd (ground arith))
    rows_judged a (ok (some (array nil))) h read = lost time h (inl read)
    rows_judged a (ok (some (array (cons row rest)))) h read = won time row rest h read

    judged :
        (a : Answer)
        → spent sent past ≤ 1
        → answer reply ≡ ok a
        → Claimed (some (judge (ok a), s)) sofar
    unfolding returned
    judged a few same =
        if-split
          (λ (r : Result Items).
            Claimed (some (map_result (λ rows. ok (has_rows rows)) r, s)) sofar)
          (is_refused a.0)
          (λ bad.
            claim_failed _ (omega arith) (
              refused a (answer-answered (claim_request time) token reply past same)
                (ground arith)))
          (λ fine.
            rows_judged a a.1.json
              (record { few = few; same = same; low = ground arith; high = ground arith }) refl)

  -- The claim when the rows have been read, but not counted.
  abbrev Midway : Option (Result Items × Session) → Events → Type 0
  Midway none t = Claimed none t
  Midway (some (r, s)) t = Claimed (some (map_result (λ rows. ok (has_rows rows)) r, s)) t

  Tried-Midway :
      (time : ℕ) (out : Option (Result Answer × Session)) (t : Events)
      → Tried persists (claim_request time) out t
      → Ends Midway t
          (elim out [ none ↦ ret none | some (r, s) ↦ done (map_result (returned path) r) s ])
  Tried-Midway time out t (no_answer few panics) = no_verdict few panics
  Tried-Midway time out t (failed e few none_came) = claim_failed e few (unanswered none_came)
  Tried-Midway time out t (at_first {a = a} none_sent same fine) =
      judged _ _ _ _ time a (omega arith) same
  Tried-Midway time out t (at_second {a = a} one_sent denied same) =
      judged _ _ _ _ time a (omega arith) same

  Midway-Claimed :
      (out : Option (Result Items × Session)) (t : Events)
      → Midway out t
      → Ends Claimed t (elim out [
        | none ↦ ret none
        | some (r, s) ↦ done (map_result (λ rows. ok (has_rows rows)) r) s
      ])
  Midway-Claimed none t h = h
  Midway-Claimed (some (r, s)) t h = h

  pub claim_row-Ends : (s : Session) → Ends Claimed [] (claim_row stamp persists table id s)
  unfolding claim_row patch_row_returning row_path claim_body
  claim_row-Ends s time =
      let past : Events = (now, time) ∷ [] in
      Ends-bind Midway Claimed past
        (patch_row_returning persists path (claim_body stamp persists time) s) _
        (Ends-bind (Tried persists (claim_request time)) Midway past (tried time s) _
          (with_auth-Ends persists (claim_request time) s past (refl, refl)) (Tried-Midway time))
        Midway-Claimed

  -- In every world, a claim sends at most two requests. A verdict comes from the last of its calls, a PATCH
  -- that marks the row with this id as claimed if it is still pending: the answer has a status of 2xx and is a
  -- JSON array or null, and the claim is won exactly if it is an array with one row at least. An error comes
  -- back only where the last call is no request with an answer, or the answer has another status or is not
  -- such JSON. There is no panic but for want of a persist function.
  pub claim_row-Claimed :
      (s : Session) (w : World Call Reply)
      → let (out, t) = run w [] (claim_row stamp persists table id s) in Claimed out t
  claim_row-Claimed s w =
      run-Ends Claimed w [] (claim_row stamp persists table id s) (claim_row-Ends s)
