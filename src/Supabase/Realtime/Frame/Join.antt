-- ===== src/Supabase/Realtime/Frame/Join.antt =====
-- Which answers to a join are accepted, told of the JSON document itself.
use proxmoxvue_agent.Base.{
  ◌≡◌, refl, sym, ap, ◌∙◌, not, Option, none, some, ◌++◌, arith, if◌then◌else◌, Bytes, codes,
  str_eq, str_eq→eq,
}
use proxmoxvue_agent.Base.Failure.{Failure, text, wrap, Result, ok, err, ◌>>=◌}
use proxmoxvue_agent.Json.{
  null, bool, number, string, array, object, Members, RawMessage, end, members, find, decode_string,
}
use proxmoxvue_agent.Json.Decoded.{decode_string-found, decode_string-string}
use proxmoxvue_agent.Proxmox.Cluster.{find_raw}
use proxmoxvue_agent.Supabase.Realtime.Frame.{decode_join, check_join}
use mathlib.Core.Path.{subst}

-- An object with the event phx_reply and a payload whose status is ok.
pub data IsAccepted (x : Result RawMessage) : Type 0 where
  accepts :
      (ms payload : Members)
      → x ≡ ok (some (object ms))
      → find (codes "event") ms ≡ some (string (codes "phx_reply"))
      → find (codes "payload") ms ≡ some (object payload)
      → find (codes "status") payload ≡ some (string (codes "ok"))
      → IsAccepted x

module _ (quote : Bytes → Bytes) (text_of : RawMessage → Bytes) where
  -- What the code makes of the decoded answer.
  abbrev verdict : Result (Bytes × Bytes × RawMessage) → Option Failure
  verdict r = elim r [
    | err e ↦ some (wrap (codes "parse phx_reply: ") e)
    | ok (event, status, response) ↦
        if not (str_eq event (codes "phx_reply"))
        then some (text (codes "expected phx_reply, got " ++ quote event))
        else if not (str_eq status (codes "ok"))
        then some (text (codes "join rejected: " ++ text_of response))
        else none
  ]

  verdict-none :
      (r : Result (Bytes × Bytes × RawMessage))
      → verdict r ≡ none
      → (response : RawMessage) × (r ≡ ok (codes "phx_reply", codes "ok", response))
  verdict-none (err e) h = absurd (ground arith)
  verdict-none (ok (event, status, response)) h =
      let is_reply : event ≡ codes "phx_reply" =
        str_eq→eq event (codes "phx_reply") (ground arith) in
      let is_ok : status ≡ codes "ok" = str_eq→eq status (codes "ok") (ground arith) in
      (response, rw (is_reply, is_ok) refl)

  no_status : (ps : Members) → end ≡ ps → find (codes "status") ps ≡ some (string (codes "ok")) → ⊥
  unfolding find
  no_status ps e has =
      let clash : none ≡ some (string (codes "ok")) =
        subst (λ ps. find (codes "status") ps ≡ some (string (codes "ok"))) (sym e) has in
      absurd (ground arith)

  -- A payload that the code decodes to a status was an object with it.
  payload-found :
      (o : RawMessage) (ps : Members)
      → elim o [ none ↦ ok end | some j ↦ members (codes "struct") (some j) ] ≡ ok ps
      → find (codes "status") ps ≡ some (string (codes "ok"))
      → o ≡ some (object ps)
  unfolding members
  payload-found none ps h has = absurd (no_status ps (ground arith) has)
  payload-found (some null) ps h has = absurd (no_status ps (ground arith) has)
  payload-found (some (bool b)) ps h has = absurd (ground arith)
  payload-found (some (number literal)) ps h has = absurd (ground arith)
  payload-found (some (string t)) ps h has = absurd (ground arith)
  payload-found (some (array items)) ps h has = absurd (ground arith)
  payload-found (some (object ps')) ps h has = ground arith

  object-IsAccepted :
      (ms : Members)
      → (e : Result Bytes) (p : Result Members) → decode_string (codes ".") (codes "event") ms ≡ e
      → elim (find (codes "payload") ms) [
        | none ↦ ok end
        | some j ↦ members (codes "struct") (some j)
      ]
        ≡ p
      → verdict (
          e >>= λ event. p >>= λ payload.
          decode_string (codes ".payload.") (codes "status") payload >>= λ status.
          ok (event, status, find_raw (codes "response") payload))
        ≡ none
      → IsAccepted (ok (some (object ms)))
  object-IsAccepted ms (err e) p has_event has_payload h = absurd (ground arith)
  object-IsAccepted ms (ok event) (err e) has_event has_payload h = absurd (ground arith)
  object-IsAccepted ms (ok event) (ok payload) has_event has_payload h =
      status (decode_string (codes ".payload.") (codes "status") payload) refl h
    where
      status :
          (r : Result Bytes)
          → decode_string (codes ".payload.") (codes "status") payload ≡ r
          → verdict (r >>= λ status. ok (event, status, find_raw (codes "response") payload)) ≡ none
          → IsAccepted (ok (some (object ms)))
      status (err e) same h' = absurd (ground arith)
      status (ok s) same h' =
          let (response, e) =
            verdict-none (ok (event, s, find_raw (codes "response") payload)) h' in
          let is_event : event ≡ codes "phx_reply" = ground arith in
          let is_status : s ≡ codes "ok" = ground arith in
          let has_status =
            decode_string-found (codes ".payload.") (codes "status") payload (codes "ok") refl
              (same ∙ ap ok is_status) in
          accepts ms payload refl
            (decode_string-found (codes ".") (codes "event") ms (codes "phx_reply") refl
              (has_event ∙ ap ok is_event))
            (payload-found (find (codes "payload") ms) payload has_payload has_status) has_status

  -- A join that the code takes for accepted is accepted.
  pub check_join-IsAccepted :
      (x : Result RawMessage) → check_join quote text_of x ≡ none → IsAccepted x
  unfolding check_join decode_join members find
  check_join-IsAccepted (err e) h = absurd (ground arith)
  check_join-IsAccepted (ok none) h = absurd (ground arith)
  check_join-IsAccepted (ok (some null)) h = absurd (ground arith)
  check_join-IsAccepted (ok (some (bool b))) h = absurd (ground arith)
  check_join-IsAccepted (ok (some (number literal))) h = absurd (ground arith)
  check_join-IsAccepted (ok (some (string t))) h = absurd (ground arith)
  check_join-IsAccepted (ok (some (array items))) h = absurd (ground arith)
  check_join-IsAccepted (ok (some (object ms))) h =
      object-IsAccepted ms (decode_string (codes ".") (codes "event") ms) _ refl refl h

  -- And one that is accepted is taken for it.
  pub IsAccepted-check_join :
      (x : Result RawMessage) → IsAccepted x → check_join quote text_of x ≡ none
  unfolding check_join decode_join members
  IsAccepted-check_join x (accepts ms payload e event has status) =
      rw
        (
          e,
          check_join,
          decode_join,
          decode_string-string (codes ".") (codes "event") ms (codes "phx_reply") event,
          has,
          decode_string-string (codes ".payload.") (codes "status") payload (codes "ok") status,
        )
        refl
