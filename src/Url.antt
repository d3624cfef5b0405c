-- ===== src/Url.antt =====
-- What the agent uses of Go's package net/url: PathEscape, QueryEscape and Values.
pub mod Order
use proxmoxvue_agent.Base.{
  ℕ, zero, suc, ◌+◌, ◌-◌, ◌*◌, ◌/◌, ◌%◌, ◌≡◌, refl, Bool, true, false, ◌&&◌, ◌||◌, Option, none,
  some, List, [], ◌∷◌, ◌++◌, not, Bytes, codes, is_empty, str_eq, ltb, leb, ◌==◌, if◌then◌else◌,
}

-- The bytes that no mode escapes: letters, digits and "-_.~".
unfoldable pub is_unreserved : ℕ → Bool
is_unreserved c =
    leb b'a' c && leb c b'z'
    || leb b'A' c && leb c b'Z'
    || leb b'0' c && leb c b'9'
    || c == b'-'
    || c == b'_'
    || c == b'.'
    || c == b'~'

-- "$&+:=@", which stand for themselves in a path segment.
unfoldable pub is_segment_sign : ℕ → Bool
is_segment_sign c = c == b'$' || c == b'&' || c == b'+' || c == b':' || c == b'=' || c == b'@'

abbrev upper_hex : ℕ → ℕ
upper_hex n = if ltb n 10 then b'0' + n else b'A' + n - 10

-- %XX
unfoldable pub percent : ℕ → Bytes
percent c = b'%' ∷ upper_hex (c / 16) ∷ upper_hex (c % 16) ∷ []

-- url.PathEscape(s)
unfoldable pub path_escape : Bytes → Bytes
unfolding is_unreserved is_segment_sign percent
path_escape [] = []
path_escape (c ∷ s) =
    (if is_unreserved c || is_segment_sign c then c ∷ [] else percent c) ++ path_escape s

-- url.QueryEscape(s)
unfoldable pub query_escape : Bytes → Bytes
unfolding is_unreserved percent
query_escape [] = []
query_escape (c ∷ s) =
    (if is_unreserved c then c ∷ [] else if c == b' ' then b'+' ∷ [] else percent c)
    ++ query_escape s

-- url.Values, with the one value for a key that `Set` leaves.
abbrev pub Values : Type 0
Values = List (Bytes × Bytes)

-- v.Set(key, value)
unfoldable pub set : Bytes → Bytes → Values → Values
unfolding str_eq
set key value [] = (key, value) ∷ []
set key value ((k, v) ∷ rest) =
    if str_eq k key then (key, value) ∷ rest else (k, v) ∷ set key value rest

-- The order of Go strings, byte by byte.
unfoldable pub before : Bytes → Bytes → Bool
before [] [] = false
before [] (d ∷ t) = true
before (c ∷ s) [] = false
before (c ∷ s) (d ∷ t) = ltb c d || c == d && before s t

unfoldable pub insert : Bytes × Bytes → Values → Values
unfolding before
insert e [] = e ∷ []
insert e (f ∷ rest) = if before e.0 f.0 then e ∷ f ∷ rest else f ∷ insert e rest

-- The entries in the order of their keys.
unfoldable pub sort : Values → Values
unfolding insert
sort [] = []
sort (e ∷ rest) = insert e (sort rest)

abbrev pub pair : Bytes × Bytes → Bytes
pair e = query_escape e.0 ++ b'=' ∷ query_escape e.1

unfoldable pub join : Values → Bytes
unfolding query_escape
join [] = []
join (e ∷ []) = pair e
join (e ∷ f ∷ rest) = pair e ++ b'&' ∷ join (f ∷ rest)

-- v.Encode()
unfoldable pub encode : Values → Bytes
unfolding sort join
encode v = join (sort v)

escapes : path_escape (codes "UPID:pve:1/a b") ≡ codes "UPID:pve:1%2Fa%20b"
unfolding path_escape
escapes = refl

encodes :
    encode ((codes "name", codes "a b") ∷ (codes "cores", codes "2") ∷ [])
    ≡ codes "cores=2&name=a+b"
unfolding encode
encodes = refl
