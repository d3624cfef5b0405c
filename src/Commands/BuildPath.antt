-- ===== src/Commands/BuildPath.antt =====
-- internal/commands/read_dispatcher.go: buildPath, which puts a row's parameters behind an endpoint
-- as a query string.
pub mod Order
use proxmoxvue_agent.Json.{
  Json, null, bool, number, string, array, object, Members, end, member, members, RawMessage,
}
use proxmoxvue_agent.Url.{Values, set, encode}
use proxmoxvue_agent.Base.{
  ℕ, zero, suc, ◌+◌, ◌-◌, ◌*◌, ◌/◌, ◌%◌, ◌^◌, ◌≤◌, ◌<◌, ◌≡◌, ◌≢◌, refl, sym, ap, ◌∙◌, ◌↔◌, ◌⊎◌, inl,
  inr, Bool, true, false, not, ◌&&◌, ◌||◌, Option, none, some, List, [], ◌∷◌, ◌++◌, map, append-nil,
  append_assoc, arith, ltb, leb, ◌==◌, if◌then◌else◌, ==_iff, Bool-cases, Option-cases, &&-true,
  ||-true, length, take, drop, all, any, All, Bytes, codes, str_eq, str_eq_iff, str_eq→eq,
  str_eq_refl, is_empty, format_nat, if-cases, if-split, trim_right,
}
use proxmoxvue_agent.Base.Failure.{
  Failure, text, refresh_revoked, post_join_closed, wrap, message, is_revoked, Result, ok, err,
  wrap_err, ◌>>=◌,
}

abbrev map_type : Bytes
map_type = codes "map[string]interface {}"

-- The entries of the decoded map[string]any; the last member of a key is the one that counts.
abbrev pub Entries : Type 0
Entries = List (Bytes × Json)

has_member : Bytes → Members → Bool
has_member key end = false
has_member key (member k v rest) = str_eq k key || has_member key rest

unfoldable pub entries : Members → Entries
unfolding has_member
entries end = []
entries (member key value rest) =
    let later = entries rest in if has_member key rest then later else (key, value) ∷ later

-- A run of bytes cut off at the right.
abbrev trim_byte : ℕ → Bytes → Bytes
trim_byte b s = trim_right (λ c. c == b) s

abbrev with_query : Bytes → Bytes ⊎ Values → Result Bytes
with_query endpoint (inl k) =
    err (text (codes "unsupported param type for " ++ b'"' ∷ k ++ codes "\""))
with_query endpoint (inr q) = ok (endpoint ++ b'?' ∷ encode q)

-- `float_text` stands for strconv and fmt on a JSON number: its value as a float64 printed by "%f",
-- or none if it is out of the range of float64.
module _ (float_text : Bytes → Option Bytes) where
  -- The text of a parameter. None: a type that is not supported.
  unfoldable pub param_text : Json → Option Bytes
  param_text (string x) = some x
  param_text (number literal) = elim (float_text literal) [
    | none ↦ none
    | some printed ↦ some (trim_byte b'.' (trim_byte b'0' printed))
  ]
  param_text (bool x) = some (if x then codes "1" else codes "0")
  param_text other = none

  -- The loop over the map, whose order Go leaves open: here it is the order of the list. The error
  -- is the key that has no text; `%q` puts it between quotes, and what `%q` escapes is left out.
  unfoldable pub set_all : Entries → Values → Bytes ⊎ Values
  unfolding param_text set
  set_all [] q = inr q
  set_all ((k, v) ∷ rest) q = elim (param_text v) [
    | none ↦ inl k
    | some x ↦ set_all rest (set k x q)
  ]

  -- The literal that does not fit a float64, with which decoding stops.
  unfoldable pub out_of_range : Entries → Option Bytes
  out_of_range [] = none
  out_of_range ((k, number literal) ∷ rest) = elim (float_text literal) [
    | none ↦ some literal
    | some printed ↦ out_of_range rest
  ]
  out_of_range ((k, other) ∷ rest) = out_of_range rest

  unfoldable pub build_from : Bytes → Entries → Result Bytes
  unfolding set_all encode
  build_from endpoint [] = ok endpoint
  build_from endpoint raw = with_query endpoint (set_all raw [])

  -- buildPath(endpoint, params)
  unfoldable pub build_path : Bytes → RawMessage → Result Bytes
  unfolding build_from entries members out_of_range
  build_path endpoint none = ok endpoint
  build_path endpoint (some null) = ok endpoint
  build_path endpoint params = elim (members map_type params) [
    | err e ↦ err (wrap (codes "params not an object: ") e)
    | ok ms ↦ elim (out_of_range (entries ms)) [
      | some literal ↦ err (
          wrap (codes "params not an object: ") (
            text (
              codes "json: cannot unmarshal number "
              ++ literal
              ++ codes " into Go value of type float64")))
      | none ↦ build_from endpoint (entries ms)
    ]
  ]
