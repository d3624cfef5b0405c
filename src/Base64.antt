-- ===== src/Base64.antt =====
-- base64.StdEncoding of Go's encoding/base64.
pub mod RoundTrip
use proxmoxvue_agent.Base.{
  ℕ, zero, suc, ◌+◌, ◌-◌, ◌*◌, ◌/◌, ◌%◌, ◌^◌, ◌≤◌, ◌<◌, ◌≡◌, ◌≢◌, refl, sym, ap, ◌∙◌, ◌↔◌, ◌⊎◌, inl,
  inr, Bool, true, false, not, ◌&&◌, ◌||◌, Option, none, some, List, [], ◌∷◌, ◌++◌, map, append-nil,
  append_assoc, arith, ltb, leb, ◌==◌, if◌then◌else◌, ==_iff, Bool-cases, Option-cases, &&-true,
  ||-true, length, take, drop, all, any, All, Bytes, codes, str_eq, str_eq_iff, str_eq→eq,
  str_eq_refl, is_empty, format_nat,
}
use proxmoxvue_agent.Base.Failure.{
  Failure, text, refresh_revoked, post_join_closed, wrap, message, is_revoked, Result, ok, err,
  wrap_err, ◌>>=◌,
}

-- The byte that stands for a number below 64.
unfoldable pub symbol : ℕ → ℕ
symbol n =
    if ltb n 26
    then b'A' + n
    else if ltb n 52
    then b'a' + (n - 26)
    else if ltb n 62
    then b'0' + (n - 52)
    else if n == 62
    then b'+'
    else b'/'

-- The number that a byte stands for.
unfoldable pub sextet : ℕ → Option ℕ
sextet c =
    if leb b'A' c && leb c b'Z'
    then some (c - b'A')
    else if leb b'a' c && leb c b'z'
    then some (c - b'a' + 26)
    else if leb b'0' c && leb c b'9'
    then some (c - b'0' + 52)
    else if c == b'+'
    then some 62
    else if c == b'/'
    then some 63
    else none

-- EncodeToString(src)
unfoldable pub encode : Bytes → Bytes
unfolding symbol
encode [] = []
encode (a ∷ []) = symbol (a / 4) ∷ symbol (a % 4 * 16) ∷ b'=' ∷ b'=' ∷ []
encode (a ∷ b ∷ []) =
    symbol (a / 4) ∷ symbol (a % 4 * 16 + b / 16) ∷ symbol (b % 16 * 4) ∷ b'=' ∷ []
encode (a ∷ b ∷ c ∷ s) =
    symbol (a / 4)
    ∷ symbol (a % 4 * 16 + b / 16)
    ∷ symbol (b % 16 * 4 + c / 64)
    ∷ symbol (c % 64)
    ∷ encode s

-- The bytes of four sextets, of three and of two; the bits left over are not looked at.
abbrev of_four : ℕ → ℕ → ℕ → ℕ → Bytes
of_four w x y z = (w * 4 + x / 16) ∷ (x % 16 * 16 + y / 4) ∷ (y % 4 * 64 + z) ∷ []

abbrev of_three : ℕ → ℕ → ℕ → Bytes
of_three w x y = (w * 4 + x / 16) ∷ (x % 16 * 16 + y / 4) ∷ []

abbrev of_two : ℕ → ℕ → Bytes
of_two w x = (w * 4 + x / 16) ∷ []

-- A quantum that ends in padding; it is the last one.
last_quantum : ℕ → ℕ → ℕ → ℕ → Option Bytes
unfolding sextet
last_quantum a b c d = elim (sextet a) [
  | none ↦ none
  | some w ↦ elim (sextet b) [
    | none ↦ none
    | some x ↦
        if c == b'='
        then some (of_two w x)
        else elim (sextet c) [ none ↦ none | some y ↦ some (of_three w x y) ]
  ]
]

-- One quantum with no padding.
quantum : ℕ → ℕ → ℕ → ℕ → Option Bytes
unfolding sextet
quantum a b c d = elim (sextet a) [
  | none ↦ none
  | some w ↦ elim (sextet b) [
    | none ↦ none
    | some x ↦ elim (sextet c) [
      | none ↦ none
      | some y ↦ elim (sextet d) [ none ↦ none | some z ↦ some (of_four w x y z) ]
    ]
  ]
]

abbrev attach : Option Bytes → Option Bytes → Option Bytes
attach (some head) (some tail) = some (head ++ tail)
attach _ _ = none

quanta : Bytes → Option Bytes
unfolding last_quantum quantum
quanta [] = some []
quanta (a ∷ b ∷ c ∷ d ∷ s) =
    let more = attach (quantum a b c d) (quanta s) in
    if d == b'=' && is_empty s then last_quantum a b c d else more
quanta short = none

-- The decoder passes over line ends.
strip_newlines : Bytes → Bytes
strip_newlines [] = []
strip_newlines (c ∷ s) = if c == 10 || c == 13 then strip_newlines s else c ∷ strip_newlines s

-- DecodeString(s). The number of the input byte that the error of Go ends in is left out.
unfoldable pub decode : Bytes → Result Bytes
unfolding quanta strip_newlines
decode s = elim (quanta (strip_newlines s)) [
  | none ↦ err (text (codes "illegal base64 data at input byte"))
  | some out ↦ ok out
]

encodes : encode (codes "pve!") ≡ codes "cHZlIQ=="
unfolding encode
encodes = refl

decodes : decode (codes "cHZl\nIQ==") ≡ ok (codes "pve!")
unfolding decode
decodes = refl

rejects : decode (codes "cHZlIQ=") ≡ err (text (codes "illegal base64 data at input byte"))
unfolding decode
rejects = refl
