-- ===== src/Supabase/Rest.antt =====
-- internal/supabase/rest.go and commands.go: requests to PostgREST with one new try after a 401, and
-- the operations on rows that are built on them.
pub mod Retry
pub mod Patch
use proxmoxvue_agent.Base.{
  ℕ, zero, suc, ◌+◌, ◌-◌, ◌*◌, ◌/◌, ◌%◌, ◌^◌, ◌≤◌, ◌<◌, ◌≡◌, ◌≢◌, refl, sym, ap, ◌∙◌, ◌↔◌, ◌⊎◌, inl,
  inr, Bool, true, false, not, ◌&&◌, ◌||◌, Option, none, some, List, [], ◌∷◌, ◌++◌, map, append-nil,
  append_assoc, arith, ltb, leb, ◌==◌, if◌then◌else◌, ==_iff, Bool-cases, Option-cases, &&-true,
  ||-true, length, take, drop, all, any, All, Bytes, codes, str_eq, str_eq_iff, str_eq→eq,
  str_eq_refl, is_empty, format_nat, if-cases, if-split,
}
use proxmoxvue_agent.Base.Program.{Program, ret, call, ◌>>=◌, ◌>>◌, perform, Event, World, run}
use proxmoxvue_agent.Base.Int.{
  ℤ, pos, negsuc, is_zero, is_negative, is_positive, format_int, int_eq,
}
use proxmoxvue_agent.Base.Failure.{
  Failure, text, refresh_revoked, post_join_closed, wrap, message, is_revoked, Result, ok, err,
  wrap_err,
}
use proxmoxvue_agent.Supabase.Session.{
  Call, Reply, now, post_token, persist, attempt, Request, Method, Body, Exchange, Session,
  not_built, not_sent, refresh, access, not_read, response,
}
use proxmoxvue_agent.Json.{RawMessage, Json, Items, nil, array, null}

-- The next step of a method, with the session that the last one left; a panic ends it all.
abbrev pub next : {A B : Type 0} → Method A → (Result A → Session → Method B) → Method B
next m f = m >>= elim [ none ↦ ret none | some (r, s) ↦ f r s ]

abbrev pub done : {A : Type 0} → Result A → Session → Method A
done r s = ret (some (r, s))

-- What an attempt returns: the status and the body, of which a failed read leaves what it has.
abbrev pub Answer : Type 0
Answer = ℕ × Body

unfoldable pub answer : Exchange → Result Answer
answer (not_built e) = err (wrap (codes "build request: ") e)
answer (not_sent e) = err (wrap (codes "do request: ") e)
answer (not_read status e body) = ok (status, body)
answer (response status body) = ok (status, body)

unfoldable pub again : Request → Result Bytes → Session → Method Answer
again request (err e) s = done (err e) s
again request (ok token) s = do reply ← perform (attempt request token); done (answer reply) s

unfoldable pub after_first : Bool → Request → Session → Result Answer → Method Answer
after_first persists request s (err e) = done (err e) s
after_first persists request s (ok a) =
    if a.0 == 401 then next (refresh persists s) (again request) else done (ok a) s

unfoldable pub first : Bool → Request → Result Bytes → Session → Method Answer
first persists request (err e) s = done (err e) s
first persists request (ok token) s = do
  reply ← perform (attempt request token)
  after_first persists request s (answer reply)

-- patchWithAuth, and the first part of getRows and postRow
unfoldable pub with_auth : Bool → Request → Session → Method Answer
with_auth persists request s = next (access persists s) (first persists request)

-- status < 200 || status >= 300
abbrev pub is_refused : ℕ → Bool
is_refused status = ltb status 200 || leb 300 status

pub status_failure : Bytes → Answer → Failure
status_failure prefix a =
    text (prefix ++ codes "status " ++ format_nat a.0 ++ codes ": " ++ a.1.raw)

unfoldable pub rows_of : Result RawMessage → Result Items
rows_of (err e) = err e
rows_of (ok none) = err (text (codes "unexpected end of JSON input"))
rows_of (ok (some null)) = ok nil
rows_of (ok (some (array items))) = ok items
rows_of (ok (some other)) =
    err (text (codes "json: cannot unmarshal into Go value of type []json.RawMessage"))

abbrev pub map_result : {A B : Type 0} → (A → Result B) → Result A → Result B
map_result f (err e) = err e
map_result f (ok a) = f a

abbrev pub patch : Bytes → Json → Bytes → Request
patch path body prefer = record {
  method = codes "PATCH";
  path = path;
  body = some body;
  prefer = prefer;
}

-- The rows in an answer to a PATCH.
unfoldable pub returned : Bytes → Answer → Result Items
unfolding status_failure
returned path a =
    if is_refused a.0
    then err (status_failure (codes "PATCH " ++ path ++ codes ": ") a)
    else wrap_err (codes "parse response: ") (rows_of a.1.json)

-- patchRowReturning(ctx, path, body)
unfoldable pub patch_row_returning : Bool → Bytes → Json → Session → Method Items
patch_row_returning persists path body s =
    next (with_auth persists (patch path body (codes "return=representation")) s)
      λ r s'. done (map_result (returned path) r) s'

-- patchRow(ctx, path, body)
unfoldable pub patch_row : Bool → Bytes → Json → Session → Method Unit
unfolding status_failure
patch_row persists path body s =
    next (with_auth persists (patch path body (codes "return=minimal")) s) λ r s'.
      done
        (map_result
          (λ a.
            if is_refused a.0
            then err (status_failure (codes "PATCH " ++ path ++ codes ": ") a)
            else ok tt)
          r)
        s'

-- getRows(ctx, path)
unfoldable pub get_rows : Bool → Bytes → Session → Method Body
unfolding status_failure
get_rows persists path s =
    next
      (with_auth persists (record { method = codes "GET"; path = path; body = none; prefer = [] })
        s)
      λ r s'.
        done
          (map_result
            (λ a.
              if is_refused a.0
              then err (status_failure (codes "GET " ++ path ++ codes ": ") a)
              else ok a.1)
            r)
          s'

-- postRow(ctx, path, body)
unfoldable pub post_row : Bool → Bytes → Json → Session → Method Unit
post_row persists path body s =
    next
      (with_auth persists
        (record {
          method = codes "POST";
          path = path;
          body = some body;
          prefer = codes "return=minimal";
        })
        s)
      λ r s'.
        done
          (map_result
            (λ a.
              if is_refused a.0
              then err
                  (text (codes "unexpected status " ++ format_nat a.0 ++ codes ": " ++ a.1.raw))
              else ok tt)
            r)
          s'
