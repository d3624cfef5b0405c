-- ===== src/Proxmox/Client.antt =====
-- internal/proxmox/client.go: requests to the API of Proxmox.
use proxmoxvue_agent.Base.{
  ℕ, ◌||◌, Option, none, some, [], ◌∷◌, ◌++◌, ltb, leb, if◌then◌else◌, length, take, Bytes, codes,
  format_nat,
}
use proxmoxvue_agent.Base.Failure.{Failure, text, wrap, Result, ok, err, wrap_err}
use proxmoxvue_agent.Url.{Values, encode}
use proxmoxvue_agent.Json.{RawMessage, members, decode_string}

-- An HTTP request: its path behind APIURL, and a form if it has one.
pub record Request : Type 0 where
  pub method : Bytes
  pub path : Bytes
  pub form : Option Bytes

-- An exchange with the server, where `json` is what json.Unmarshal reads the body as.
pub data Exchange : Type 0 where
  -- http.NewRequestWithContext failed
  not_built : Failure → Exchange
  -- httpClient.Do failed
  not_sent : Failure → Exchange
  -- io.ReadAll failed
  not_read : Failure → Exchange
  response : (status : ℕ) → (raw : Bytes) → (json : Result RawMessage) → Exchange

-- truncate(s, n); the bytes behind the cut are those of an ellipsis
unfoldable pub truncate : Bytes → ℕ → Bytes
truncate s n = if leb (length s) n then s else take n s ++ (226 ∷ 128 ∷ 166 ∷ [])

-- The part that all five methods share: the body of an answer with a status of 2xx.
unfoldable pub body_of : Exchange → Result (Bytes × Result RawMessage)
unfolding truncate
body_of (not_built e) = err (wrap (codes "build request: ") e)
body_of (not_sent e) = err (wrap (codes "do request: ") e)
body_of (not_read e) = err (wrap (codes "read response: ") e)
body_of (response status raw json) =
    if ltb status 200 || leb 300 status
    then err (text (codes "status " ++ format_nat status ++ codes ": " ++ truncate raw 200))
    else ok (raw, json)

-- What getJSON, deleteJSON, postForm and postJSON leave in `out`, read by `decode`.
unfoldable pub decoded : {A : Type 0} → (RawMessage → Result A) → Exchange → Result A
unfolding body_of
decoded {A} decode x = elim (body_of x) [
  | err e ↦ err e
  | ok body ↦ elim body.1 [
    | err e ↦ err (wrap (codes "parse response: ") e)
    | ok raw ↦ wrap_err (codes "parse response: ") (decode raw)
  ]
]

-- GetRaw(ctx, path): what it makes of the answer
unfoldable pub raw_of : Exchange → Result Bytes
unfolding body_of
raw_of x = elim (body_of x) [ err e ↦ err e | ok body ↦ ok body.0 ]

abbrev pub get : Bytes → Request
get path = record { method = codes "GET"; path = path; form = none }

abbrev pub delete : Bytes → Request
delete path = record { method = codes "DELETE"; path = path; form = none }

-- postJSON with no body
abbrev pub post : Bytes → Request
post path = record { method = codes "POST"; path = path; form = none }

abbrev pub post_form : Bytes → Values → Request
post_form path form = record { method = codes "POST"; path = path; form = some (encode form) }

-- struct { Data string `json:"data"` }
unfoldable pub decode_data : RawMessage → Result Bytes
unfolding members decode_string
decode_data raw = elim (members (codes "struct { Data string \"json:\\\"data\\\"\" }") raw) [
  | err e ↦ err e
  | ok ms ↦ decode_string (codes ".") (codes "data") ms
]
