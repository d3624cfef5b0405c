-- ===== src/Supabase/Rest/Patch.antt =====
-- When a row counts as changed.
use proxmoxvue_agent.Base.{
  ◌≤◌, ◌≡◌, Bool, false, Option, none, some, ◌∷◌, ◌++◌, arith, if◌then◌else◌, Bytes, codes,
  format_nat, if-split,
}
use proxmoxvue_agent.Base.Program.{ret}
use proxmoxvue_agent.Base.Failure.{Failure, text, Result, ok, err}
use proxmoxvue_agent.Supabase.Session.{Session, Exchange, Request, attempt}
use proxmoxvue_agent.Supabase.Session.Refresh.{Events}
use proxmoxvue_agent.Supabase.Rest.{
  done, map_result, patch_row, post_row, with_auth, Answer, answer, is_refused, patch,
  status_failure,
}
use proxmoxvue_agent.Supabase.Rest.Retry.{
  sent, denied, Tried, with_auth-Ends, no_answer, failed, at_first, at_second,
}
use proxmoxvue_agent.Json.{Json}
use proxmoxvue_agent.Base.Ledger.{Ends, Ends-bind, spent, earned}

abbrev pub patch_request : Bytes → Json → Request
patch_request path body = patch path body (codes "return=minimal")

abbrev pub post_request : Bytes → Json → Request
post_request path body = record {
  method = codes "POST";
  path = path;
  body = some body;
  prefer = codes "return=minimal";
}

module _ (persists : Bool) (request : Request) where
  -- How a request that changes a row ends.
  pub data Changed : Option (Result {0} Unit × Session) → Events → Type 0 where
    panicked : {t : Events} → persists ≡ false → Changed none t
    change_failed : {t : Events} {s : Session} (e : Failure) → Changed (some (err e, s)) t
    -- The last answer, to the first or the second attempt, had a status of 2xx.
    changed :
        {past : Events} {s : Session} {token : Bytes} {reply : Exchange} {a : Answer}
        → spent sent past ≤ 1
        → answer reply ≡ ok a
        → is_refused a.0 ≡ false
        → Changed (some (ok tt, s)) ((attempt request token, reply) ∷ past)

  pub Changed-none : {t : Events} → Changed none t → persists ≡ false
  Changed-none (panicked panics) = panics

  judged :
      {past : Events} {s : Session} {token : Bytes} {reply : Exchange} (a : Answer) (e : Failure)
      → spent sent past ≤ 1
      → answer reply ≡ ok a
      → Changed
          (some ((if is_refused a.0 then err e else ok tt), s))
          ((attempt request token, reply) ∷ past)
  judged {past} {s} {token} {reply} a e few same =
      if-split
        (λ (r : Result {0} Unit). Changed (some (r, s)) ((attempt request token, reply) ∷ past))
        (is_refused a.0) (λ bad. change_failed e) (λ fine. changed few same fine)

  -- `refusal` is the error for a status that is not 2xx.
  pub Tried-Changed :
      (refusal : Answer → Failure) (out : Option (Result Answer × Session)) (t : Events)
      → Tried persists request out t
      → Ends Changed t (elim out [
        | none ↦ ret none
        | some (r, s') ↦
            done (map_result (λ a. if is_refused a.0 then err (refusal a) else ok tt) r) s'
      ])
  Tried-Changed refusal out t (no_answer few panics) = panicked panics
  Tried-Changed refusal out t (failed e few unanswered) = change_failed e
  Tried-Changed refusal out t (at_first {a = a} none_sent same fine) =
      judged a (refusal a) (omega arith) same
  Tried-Changed refusal out t (at_second {a = a} one_sent denied same) =
      judged a (refusal a) (omega arith) same

module _ (persists : Bool) (path : Bytes) (body : Json) (s : Session) (past : Events)
    (fresh : (spent sent past ≡ 0) × (earned denied past ≡ 0)) where
  pub patch_row-Ends :
      Ends (Changed persists (patch_request path body)) past (patch_row persists path body s)
  unfolding patch_row
  patch_row-Ends =
      let request = patch_request path body in
      Ends-bind (Tried persists request) (Changed persists request) past
        (with_auth persists request s) _ (with_auth-Ends persists request s past fresh)
        (Tried-Changed persists request (status_failure (codes "PATCH " ++ path ++ codes ": ")))

  pub post_row-Ends :
      Ends (Changed persists (post_request path body)) past (post_row persists path body s)
  unfolding post_row
  post_row-Ends =
      let request = post_request path body in
      Ends-bind (Tried persists request) (Changed persists request) past
        (with_auth persists request s) _ (with_auth-Ends persists request s past fresh)
        (Tried-Changed persists request
          (λ a. text (codes "unexpected status " ++ format_nat a.0 ++ codes ": " ++ a.1.raw)))
