-- ===== src/Pattern.antt =====
-- The regular expressions of the agent: a row of pieces that must match the whole text, as
-- `regexp.MatchString` does for `^...$`. The class `[^/]` reads runes in Go and bytes here; that is
-- the same, as no rune but '/' has its byte.
pub mod Meaning
use proxmoxvue_agent.Base.{
  ℕ, zero, suc, ◌-◌, ◌≡◌, refl, Bool, true, false, ◌&&◌, ◌||◌, Option, none, some, List, [], ◌∷◌,
  not, Bytes, codes, is_empty, ltb, leb, ◌==◌, if◌then◌else◌,
}

pub data Piece : Type 0 where
  -- fixed bytes
  literal : Bytes → Piece
  -- (a|b)
  either : Bytes → Bytes → Piece
  -- [class]
  one : (ℕ → Bool) → Piece
  -- [class]+
  some_of : (ℕ → Bool) → Piece
  -- [class]{lo,hi}
  repeat : (ℕ → Bool) → ℕ → ℕ → Piece

-- What is left of a text behind a prefix.
unfoldable pub strip : Bytes → Bytes → Option Bytes
strip [] s = some s
strip (p ∷ ps) [] = none
strip (p ∷ ps) (c ∷ s) = if p == c then strip ps s else none

abbrev pub on_rest : (Bytes → Bool) → Option Bytes → Bool
on_rest k none = false
on_rest k (some rest) = k rest

-- One or more bytes of a class, and the rest by `k`.
unfoldable pub match_some : (ℕ → Bool) → (Bytes → Bool) → Bytes → Bool
match_some class k [] = false
match_some class k (c ∷ s) = class c && (k s || match_some class k s)

-- `lo` to `hi` bytes of a class, and the rest by `k`.
unfoldable pub match_repeat : (ℕ → Bool) → ℕ → ℕ → (Bytes → Bool) → Bytes → Bool
match_repeat class lo hi k [] = lo == 0 && k []
match_repeat class lo hi k (c ∷ s) =
    (lo == 0 && k (c ∷ s)) || ltb 0 hi && class c && match_repeat class (lo - 1) (hi - 1) k s

abbrev pub on_head : (ℕ → Bool) → (Bytes → Bool) → Bytes → Bool
on_head class k [] = false
on_head class k (c ∷ s) = class c && k s

unfoldable pub matches : List Piece → Bytes → Bool
unfolding strip match_some match_repeat
matches [] s = is_empty s
matches (literal p ∷ ps) s = on_rest (matches ps) (strip p s)
matches (either a b ∷ ps) s = on_rest (matches ps) (strip a s) || on_rest (matches ps) (strip b s)
matches (one class ∷ ps) s = on_head class (matches ps) s
matches (some_of class ∷ ps) s = match_some class (matches ps) s
matches (repeat class lo hi ∷ ps) s = match_repeat class lo hi (matches ps) s

-- [^/]
abbrev pub not_slash : ℕ → Bool
not_slash c = not (c == b'/')

-- \d
abbrev pub is_digit : ℕ → Bool
is_digit c = leb b'0' c && leb c b'9'

-- [a-zA-Z]
abbrev pub is_letter : ℕ → Bool
is_letter c = leb b'a' c && leb c b'z' || leb b'A' c && leb c b'Z'
