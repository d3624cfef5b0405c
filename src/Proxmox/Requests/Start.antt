-- ===== src/Proxmox/Requests/Start.antt =====
-- When a task counts as started, and what a snapshot's name does to a path.
use proxmoxvue_agent.Base.{
  ℕ, ◌≤◌, ◌<◌, ◌≡◌, refl, ◌∙◌, true, false, ◌||◌, ◌++◌, arith, ltb, leb, Bytes, codes, if-split,
  ◌↔◌, some, none, [], inl, inr,
}
use proxmoxvue_agent.Base.Failure.{wrap, Result, ok, err, wrap_err}
use proxmoxvue_agent.Commands.Calls.{ActorCall, delete_snapshot, rollback_snapshot}
use proxmoxvue_agent.Proxmox.Client.{
  Exchange, response, not_built, not_sent, not_read, body_of, decoded, decode_data, post, delete,
}
use proxmoxvue_agent.Proxmox.Requests.{started, request_of, error_prefix}
use proxmoxvue_agent.Proxmox.SnapshotName.{is_snapshot_name, escape_snapshot_name}
use proxmoxvue_agent.Json.{
  RawMessage, members, Members, find, object, bool, number, string, array, null,
}
use proxmoxvue_agent.Base.Int.{ℤ, format_int}
use proxmoxvue_agent.Json.Decoded.{decode_string-string, decode_string-absent, decode_string-cases}

-- What the body of an answer says of a task: the member `data` is its UPID; where there is no such member, or
-- it or the whole body is null, the UPID is empty.
pub data HasUpid (upid : Bytes) (json : RawMessage) : Type 0 where
  in_data :
      (ms : Members)
      → json ≡ some (object ms)
      → find (codes "data") ms ≡ some (string upid)
      → HasUpid upid json
  no_data :
      (ms : Members)
      → json ≡ some (object ms)
      → find (codes "data") ms ≡ none
      → upid ≡ []
      → HasUpid upid json
  no_body : json ≡ some null → upid ≡ [] → HasUpid upid json

decode_data-HasUpid :
    (upid : Bytes) (json : RawMessage) → decode_data json ≡ ok upid → HasUpid upid json
unfolding decode_data members
decode_data-HasUpid upid none h = absurd (ground arith)
decode_data-HasUpid upid (some null) h = no_body refl (ground arith)
decode_data-HasUpid upid (some (bool b)) h = absurd (ground arith)
decode_data-HasUpid upid (some (number literal)) h = absurd (ground arith)
decode_data-HasUpid upid (some (string s)) h = absurd (ground arith)
decode_data-HasUpid upid (some (array items)) h = absurd (ground arith)
decode_data-HasUpid upid (some (object ms)) h =
    elim (decode_string-cases (codes ".") (codes "data") ms upid h) [
      | inl there ↦ in_data ms refl there
      | inr (absent_field, blank) ↦ no_data ms refl absent_field blank
    ]

HasUpid-decode_data :
    (upid : Bytes) (json : RawMessage) → HasUpid upid json → decode_data json ≡ ok upid
unfolding decode_data members find
HasUpid-decode_data upid json (in_data ms e there) =
    rw (e, decode_string-string (codes ".") (codes "data") ms upid there) refl
HasUpid-decode_data upid json (no_data ms e absent_field blank) =
    rw (e, decode_string-absent (codes ".") (codes "data") ms absent_field, blank) refl
HasUpid-decode_data upid json (no_body e blank) = rw (e, blank) refl

-- An answer of Proxmox that starts a task.
pub data Started (upid : Bytes) (x : Exchange) : Type 0 where
  accepted :
      (status : ℕ) (raw : Bytes) (json : RawMessage)
      → x ≡ response status raw (ok json)
      → 200 ≤ status
      → status < 300
      → HasUpid upid json
      → Started upid x

module _ (c : ActorCall) (upid : Bytes) where
  read-Started :
      (status : ℕ) (raw : Bytes) (json : RawMessage)
      → 200 ≤ status
      → status < 300
      → (r : Result Bytes) → decode_data json ≡ r
      → wrap_err (error_prefix c) (wrap_err (codes "parse response: ") r) ≡ ok upid
      → Started upid (response status raw (ok json))
  read-Started status raw json low high (err e) read h = absurd (ground arith)
  read-Started status raw json low high (ok u) read h =
      accepted status raw json refl low high (decode_data-HasUpid upid json (read ∙ h))

  started_sound : (x : Exchange) → started c x ≡ ok upid → Started upid x
  unfolding started decoded body_of
  started_sound (not_built e) h = absurd (ground arith)
  started_sound (not_sent e) h = absurd (ground arith)
  started_sound (not_read e) h = absurd (ground arith)
  started_sound (response status raw json) h =
      if-split
        (λ (r : Result (Bytes × Result RawMessage)).
          wrap_err (error_prefix c) (elim r [
            | err e ↦ err e
            | ok body ↦ elim body.1 [
              | err e ↦ err (wrap (codes "parse response: ") e)
              | ok value ↦ wrap_err (codes "parse response: ") (decode_data value)
            ]
          ])
            ≡ ok upid
          → Started upid (response status raw json))
        (ltb status 200 || leb 300 status) (λ bad h'. absurd (ground arith))
        (λ fine. parsed fine json) h
    where
      parsed :
          ltb status 200 || leb 300 status ≡ false
          → (json : Result RawMessage)
          → wrap_err (error_prefix c) (elim json [
            | err e ↦ err (wrap (codes "parse response: ") e)
            | ok value ↦ wrap_err (codes "parse response: ") (decode_data value)
          ])
            ≡ ok upid
          → Started upid (response status raw json)
      parsed fine (err e) h = absurd (ground arith)
      parsed fine (ok value) h =
          read-Started status raw value (ground arith) (ground arith) (decode_data value) refl h

  started_complete : (x : Exchange) → Started upid x → started c x ≡ ok upid
  unfolding started decoded body_of
  started_complete x (accepted status raw json e low high has) =
      let fine : ltb status 200 || leb 300 status ≡ false = ground arith in
      let read = HasUpid-decode_data upid json has in rw (e, decoded, body_of, fine, read) refl

  -- A method hands out a UPID exactly from an answer that was read in full, has a status of 2xx and is a JSON
  -- object or null: the UPID is the string in its member `data`; where there is no such member, or it or the
  -- whole body is null, the task counts as started with an empty UPID. So no answer with another status or
  -- with `data` of another type, and nothing that failed on the way, is taken for a task.
  pub started-Started : (x : Exchange) → (started c x ≡ ok upid) ↔ Started upid x
  started-Started x = (started_sound x, started_complete x)

-- The paths of the two requests that name a snapshot, with a name that passes the pattern: the name
-- stands in them as it is.
pub request_of-snapshot_name :
    (kind node : Bytes) (vmid : ℤ) (name : Bytes)
    → is_snapshot_name name ≡ true
    → let base =
        codes "/api2/json/nodes/"
        ++ node
        ++ codes "/"
        ++ kind
        ++ codes "/"
        ++ format_int vmid
        ++ codes "/snapshot/" in
      (request_of (delete_snapshot kind node vmid name) ≡ delete (base ++ name))
      × (request_of (rollback_snapshot kind node vmid name)
          ≡ post (base ++ name ++ codes "/rollback"))
unfolding request_of
request_of-snapshot_name kind node vmid name h =
    let (same, same_query) = escape_snapshot_name name h in (rw same refl, rw same refl)
