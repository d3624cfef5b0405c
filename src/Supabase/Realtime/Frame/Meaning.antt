-- ===== src/Supabase/Realtime/Frame/Meaning.antt =====
-- Which frames are heartbeat answers and which are inserted rows, told of the JSON document itself.
use proxmoxvue_agent.Base.{
  ◌≡◌, refl, true, none, some, [], arith, Bool-cases, inl, inr, Bytes, codes, str_eq, str_eq→eq,
  ◌≢◌, ◌∙◌, ap,
}
use proxmoxvue_agent.Base.Failure.{Result, ok, err, ◌>>=◌}
use proxmoxvue_agent.Json.{
  Json, null, bool, number, string, array, object, Members, RawMessage, members, find,
  decode_string,
}
use proxmoxvue_agent.Json.Decoded.{
  IsText, decode_string-found, decode_string-IsText, decode_string-string, decode_string-text,
}
use proxmoxvue_agent.Proxmox.Cluster.{find_raw}
use proxmoxvue_agent.Supabase.Realtime.Frame.{
  Kind, ack, insert, skipped, classify, kind_of_frame, frame_of, kind_of_change, change_of, change,
}

-- An object with the event phx_reply and the topic phoenix.
pub data IsAck (x : Result RawMessage) : Type 0 where
  acknowledges :
      (ms : Members)
      → x ≡ ok (some (object ms))
      → find (codes "event") ms ≡ some (string (codes "phx_reply"))
      → find (codes "topic") ms ≡ some (string (codes "phoenix"))
      → IsAck x

-- An object with the event postgres_changes and no ill-typed topic, whose payload is an object with an
-- object as its data, which has the type INSERT and this record.
pub data Inserts (record_value : RawMessage) (x : Result RawMessage) : Type 0 where
  inserts :
      (ms payload change_data : Members)
      → x ≡ ok (some (object ms))
      → find (codes "event") ms ≡ some (string (codes "postgres_changes"))
      → IsText (find (codes "topic") ms)
      → find_raw (codes "payload") ms ≡ some (object payload)
      → find (codes "data") payload ≡ some (object change_data)
      → find (codes "type") change_data ≡ some (string (codes "INSERT"))
      → record_value ≡ find_raw (codes "record") change_data
      → Inserts record_value x

-- The same for the payload alone.
abbrev Changes : RawMessage → RawMessage → Type 0
Changes record_value p =
    (payload : Members) × (change_data : Members) × (p ≡ some (object payload))
    × (find (codes "data") payload ≡ some (object change_data))
    × (find (codes "type") change_data ≡ some (string (codes "INSERT")))
    × (record_value ≡ find_raw (codes "record") change_data)

module _ (v : RawMessage) where
  change-insert :
      (ds : Members)
      → kind_of_change (change ds) ≡ insert v
      → (find (codes "type") ds ≡ some (string (codes "INSERT")))
        × (v ≡ find_raw (codes "record") ds)
  unfolding change kind_of_change
  change-insert ds h = go (decode_string (codes ".data.") (codes "type") ds) refl h
    where
      go :
          (r : Result Bytes)
          → decode_string (codes ".data.") (codes "type") ds ≡ r
          → kind_of_change (r >>= λ type. ok (type, find_raw (codes "record") ds)) ≡ insert v
          → (find (codes "type") ds ≡ some (string (codes "INSERT")))
            × (v ≡ find_raw (codes "record") ds)
      go (err e) same h' = absurd (ground arith)
      go (ok type) same h' = elim (Bool-cases (str_eq type (codes "INSERT"))) [
        | inl is_insert ↦ (
          decode_string-found (codes ".data.") (codes "type") ds (codes "INSERT") refl
              (same ∙ ap ok (str_eq→eq type (codes "INSERT") is_insert)),
          ground arith,
        )
        | inr other ↦ absurd (ground arith)
      ]

  data-insert :
      (j : Json)
      → kind_of_change (members (codes "struct") (some j) >>= change) ≡ insert v
      → (ds : Members) × (j ≡ object ds) × (kind_of_change (change ds) ≡ insert v)
  unfolding kind_of_change members change find
  data-insert null h = absurd (ground arith)
  data-insert (bool b) h = absurd (ground arith)
  data-insert (number literal) h = absurd (ground arith)
  data-insert (string s) h = absurd (ground arith)
  data-insert (array items) h = absurd (ground arith)
  data-insert (object ds) h = (ds, refl, h)

  object-insert :
      (ps : Members) → kind_of_change (change_of (ok ps)) ≡ insert v → Changes v (some (object ps))
  unfolding change_of kind_of_change
  object-insert ps h = go (find (codes "data") ps) refl h
    where
      go :
          (o : RawMessage)
          → find (codes "data") ps ≡ o
          → kind_of_change (elim o [
            | none ↦ ok ([], none)
            | some j ↦ members (codes "struct") (some j) >>= change
          ])
            ≡ insert v
          → Changes v (some (object ps))
      go none same h' = absurd (ground arith)
      go (some j) same h' =
          let (ds, is_object, h'') = data-insert j h' in
          let (a, b) = change-insert ds h'' in (ps, ds, refl, same ∙ ap some is_object, a, b)

  payload-insert :
      (p : RawMessage)
      → kind_of_change (change_of (members (codes "struct") p)) ≡ insert v
      → Changes v p
  unfolding change_of kind_of_change members find
  payload-insert none h = absurd (ground arith)
  payload-insert (some null) h = absurd (ground arith)
  payload-insert (some (bool b)) h = absurd (ground arith)
  payload-insert (some (number literal)) h = absurd (ground arith)
  payload-insert (some (string s)) h = absurd (ground arith)
  payload-insert (some (array items)) h = absurd (ground arith)
  payload-insert (some (object ps)) h = object-insert ps h

-- What a kind says of a frame.
abbrev Means : Result RawMessage → Kind → Type 0
Means x ack = IsAck x
Means x (insert v) = Inserts v x
Means x skipped = Unit

change-no_ack : (r : Result (Bytes × RawMessage)) → kind_of_change r ≢ ack
unfolding kind_of_change
change-no_ack (err e) h = cc
change-no_ack (ok (type, record_value)) h = elim (Bool-cases (str_eq type (codes "INSERT"))) [
  | inl same ↦ absurd (ground arith)
  | inr other ↦ absurd (ground arith)
]

-- The fields of a frame that is an object.
object-Means :
    (ms : Members)
    → (t e : Result Bytes) → decode_string (codes ".") (codes "topic") ms ≡ t
    → decode_string (codes ".") (codes "event") ms ≡ e
    → (k : Kind)
    → kind_of_frame (
        t >>= λ topic. e >>= λ event.
        ok (record { topic = topic; event = event; payload = find_raw (codes "payload") ms }))
      ≡ k
    → Means (ok (some (object ms))) k
unfolding kind_of_frame
object-Means ms (err e) event has_topic has_event ack h = absurd (ground arith)
object-Means ms (err e) event has_topic has_event (insert v) h = absurd (ground arith)
object-Means ms (err e) event has_topic has_event skipped h = tt
object-Means ms (ok topic) (err e) has_topic has_event ack h = absurd (ground arith)
object-Means ms (ok topic) (err e) has_topic has_event (insert v) h = absurd (ground arith)
object-Means ms (ok topic) (err e) has_topic has_event skipped h = tt
object-Means ms (ok topic) (ok event) has_topic has_event skipped h = tt
object-Means ms (ok topic) (ok event) has_topic has_event ack h =
    let none_of_change =
      change-no_ack (change_of (members (codes "struct") (find_raw (codes "payload") ms))) in
    let is_reply : str_eq event (codes "phx_reply") ≡ true = ground arith in
    let is_phoenix : str_eq topic (codes "phoenix") ≡ true = ground arith in
    acknowledges ms refl
      (decode_string-found (codes ".") (codes "event") ms (codes "phx_reply") refl
        (has_event ∙ ap ok (str_eq→eq event (codes "phx_reply") is_reply)))
      (decode_string-found (codes ".") (codes "topic") ms (codes "phoenix") refl
        (has_topic ∙ ap ok (str_eq→eq topic (codes "phoenix") is_phoenix)))
object-Means ms (ok topic) (ok event) has_topic has_event (insert v) h =
    let is_change : str_eq event (codes "postgres_changes") ≡ true = ground arith in
    let (payload, ds, a, b, c, d) =
      payload-insert v (find_raw (codes "payload") ms) (ground arith) in
    inserts ms payload ds refl
      (decode_string-found (codes ".") (codes "event") ms (codes "postgres_changes") refl
        (has_event ∙ ap ok (str_eq→eq event (codes "postgres_changes") is_change)))
      (decode_string-IsText (codes ".") (codes "topic") ms topic has_topic) a b c d

-- What the code takes for an answer or a row is one.
pub classify-Means : (x : Result RawMessage) (k : Kind) → classify x ≡ k → Means x k
unfolding classify frame_of kind_of_frame members
classify-Means x skipped h = tt
classify-Means (ok (some (object ms))) k h = object-Means ms _ _ refl refl k h
classify-Means (err e) ack h = absurd (ground arith)
classify-Means (err e) (insert v) h = absurd (ground arith)
classify-Means (ok none) ack h = absurd (ground arith)
classify-Means (ok none) (insert v) h = absurd (ground arith)
classify-Means (ok (some null)) ack h = absurd (ground arith)
classify-Means (ok (some null)) (insert v) h = absurd (ground arith)
classify-Means (ok (some (bool b))) ack h = absurd (ground arith)
classify-Means (ok (some (bool b))) (insert v) h = absurd (ground arith)
classify-Means (ok (some (number b))) ack h = absurd (ground arith)
classify-Means (ok (some (number b))) (insert v) h = absurd (ground arith)
classify-Means (ok (some (string b))) ack h = absurd (ground arith)
classify-Means (ok (some (string b))) (insert v) h = absurd (ground arith)
classify-Means (ok (some (array b))) ack h = absurd (ground arith)
classify-Means (ok (some (array b))) (insert v) h = absurd (ground arith)

pub IsAck-classify : (x : Result RawMessage) → IsAck x → classify x ≡ ack
unfolding classify frame_of kind_of_frame members
IsAck-classify x (acknowledges ms e event topic) =
    rw
      (
        e,
        decode_string-string (codes ".") (codes "topic") ms (codes "phoenix") topic,
        decode_string-string (codes ".") (codes "event") ms (codes "phx_reply") event,
      )
      refl

change-Changes :
    (v : RawMessage) (payload ds : Members)
    → find (codes "data") payload ≡ some (object ds)
    → find (codes "type") ds ≡ some (string (codes "INSERT"))
    → v ≡ find_raw (codes "record") ds
    → kind_of_change (change_of (members (codes "struct") (some (object payload)))) ≡ insert v
unfolding members kind_of_change change change_of
change-Changes v payload ds b c d =
    rw (change_of, b, decode_string-string (codes ".data.") (codes "type") ds (codes "INSERT") c, d)
      refl

pub Inserts-classify :
    (x : Result RawMessage) (v : RawMessage) → Inserts v x → classify x ≡ insert v
unfolding classify frame_of kind_of_frame members kind_of_change change_of change
Inserts-classify x v (inserts ms payload ds e event topic a b c d) =
    let (t, has_topic) = decode_string-text (codes ".") (codes "topic") ms topic in
    let changed = change-Changes v payload ds b c d in
    rw
      (
        e,
        has_topic,
        decode_string-string (codes ".") (codes "event") ms (codes "postgres_changes") event,
        a,
        changed,
      )
      refl
