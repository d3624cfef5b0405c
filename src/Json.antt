-- ===== src/Json.antt =====
-- JSON values and what `encoding/json` makes of them when it decodes into a struct. A
-- json.RawMessage is one value: it comes out of a document that was decoded already, and an absent
-- member leaves it empty.
pub mod Decoded
use proxmoxvue_agent.Base.{
  ℕ, zero, suc, ◌+◌, ◌-◌, ◌*◌, ◌^◌, ◌≡◌, refl, Bool, true, false, not, ◌&&◌, Option, none, some, [],
  ◌∷◌, ◌++◌, Bytes, codes, str_eq, to_lower, leb, ◌==◌, if◌then◌else◌,
}
use proxmoxvue_agent.Base.Int.{ℤ, pos, negsuc}
use proxmoxvue_agent.Base.Failure.{Failure, text, Result, ok, err}

mutual
  pub data Json : Type 0 where
    null : Json
    bool : Bool → Json
    -- The literal as it is written.
    number : Bytes → Json
    string : Bytes → Json
    array : Items → Json
    object : Members → Json

  pub data Items : Type 0 where
    nil : Items
    cons : Json → Items → Items

  pub data Members : Type 0 where
    end : Members
    member : Bytes → Json → Members → Members

-- json.RawMessage
abbrev pub RawMessage : Type 0
RawMessage = Option Json

abbrev is_null : Json → Bool
is_null null = true
is_null other = false

-- The value that a field of this name (in lower case) gets: a key matches whatever its case, the
-- last match is the one that counts, and `null` leaves a field as it is. An earlier match that has
-- the wrong type would be an error too; that is not modelled.
unfoldable pub find : Bytes → Members → Option Json
unfolding to_lower str_eq
find name end = none
find name (member key value rest) =
    let later = find name rest in
    let here = if str_eq (to_lower key) name && not (is_null value) then some value else none in
    elim later [ none ↦ here | some found ↦ some found ]

-- The Value of an UnmarshalTypeError
describe : Json → Bytes
describe null = codes "null"
describe (bool b) = codes "bool"
describe (number literal) = codes "number"
describe (string s) = codes "string"
describe (array items) = codes "array"
describe (object ms) = codes "object"

-- The text of an UnmarshalTypeError at a field. Of several mistyped fields the decoder reports the
-- first of the document, the model the first of the struct.
mismatch : Bytes → Bytes → Bytes → Failure
mismatch value field type = text (
    codes "json: cannot unmarshal "
    ++ value
    ++ codes " into Go struct field "
    ++ field
    ++ codes " of type "
    ++ type)

-- A field of type string; `struct` is the struct's name with a dot behind it.
unfoldable pub decode_string : Bytes → Bytes → Members → Result Bytes
unfolding mismatch describe find
decode_string struct name ms = elim (find name ms) [
  | none ↦ ok []
  | some value ↦ elim value [
    | string s ↦ ok s
    | other ↦ err (mismatch (describe other) (struct ++ name) (codes "string"))
  ]
]

-- A field of type bool.
unfoldable pub decode_bool : Bytes → Bytes → Members → Result Bool
unfolding mismatch describe find
decode_bool struct name ms = elim (find name ms) [
  | none ↦ ok false
  | some value ↦ elim value [
    | bool b ↦ ok b
    | other ↦ err (mismatch (describe other) (struct ++ name) (codes "bool"))
  ]
]

-- strconv.ParseInt on the literal, without its sign: digits only, and a bound.
parse_digits : Bytes → ℕ → Option ℕ
parse_digits [] n = some n
parse_digits (c ∷ s) n =
    if leb b'0' c && leb c b'9' then parse_digits s (n * 10 + (c - b'0')) else none

within : ℕ → ℕ → Option ℕ
within bound n = if leb n bound then some n else none

negate : ℕ → ℤ
negate zero = pos 0
negate (suc n) = negsuc n

-- The value of a JSON literal as an int64: none for a fraction, an exponent or a value out of range.
unfoldable pub parse_int : Bytes → Option ℤ
unfolding parse_digits within negate
parse_int [] = none
parse_int (c ∷ s) =
    if c == b'-'
    then elim (parse_digits s 0) [
      | none ↦ none
      | some n ↦ elim (within (2 ^ 63) n) [ none ↦ none | some m ↦ some (negate m) ]
    ]
    else elim (parse_digits (c ∷ s) 0) [
      | none ↦ none
      | some n ↦ elim (within (2 ^ 63 - 1) n) [ none ↦ none | some m ↦ some (pos m) ]
    ]

-- A field of type int.
unfoldable pub decode_int : Bytes → Bytes → Members → Result ℤ
unfolding mismatch describe find parse_int
decode_int struct name ms = elim (find name ms) [
  | none ↦ ok (pos 0)
  | some value ↦ elim value [
    | number literal ↦ elim (parse_int literal) [
      | none ↦ err (mismatch (codes "number " ++ literal) (struct ++ name) (codes "int"))
      | some n ↦ ok n
    ]
    | other ↦ err (mismatch (describe other) (struct ++ name) (codes "int"))
  ]
]

-- The members of a value that is decoded into the struct type `type`: `null` decodes to nothing.
unfoldable pub members : Bytes → RawMessage → Result Members
unfolding describe
members type none = err (text (codes "unexpected end of JSON input"))
members type (some null) = ok end
members type (some (object ms)) = ok ms
members type (some other) = err (
    text (
      codes "json: cannot unmarshal " ++ describe other ++ codes " into Go value of type " ++ type))

parses : parse_int (codes "-42") ≡ some (negsuc 41)
unfolding parse_int
parses = refl

rejects_fraction : parse_int (codes "1.0") ≡ none
unfolding parse_int
rejects_fraction = refl
