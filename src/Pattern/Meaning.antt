-- ===== src/Pattern/Meaning.antt =====
-- What a row of pieces means, as splittings of the text, and that `matches` decides it.
use proxmoxvue_agent.Base.{
  ℕ, ◌-◌, ◌≤◌, ◌<◌, ◌||◌, ltb→lt, ◌≡◌, refl, ap, Bool, true, ◌⊎◌, inl, inr, Option, none, some,
  List, [], ◌∷◌, ◌++◌, Bytes, length, All, arith, ==_iff, &&-true, ||-true, ◌==◌,
}
use proxmoxvue_agent.Pattern.{
  Piece, literal, either, one, some_of, repeat, strip, on_rest, on_head, match_some, match_repeat,
  matches,
}

-- The texts of one piece.
abbrev pub IsPiece : Piece → Bytes → Type 0
IsPiece (literal p) s = s ≡ p
IsPiece (either a b) s = (s ≡ a) ⊎ (s ≡ b)
IsPiece (one class) s = (c : ℕ) × (s ≡ c ∷ []) × (class c ≡ true)
IsPiece (some_of class) s = (1 ≤ length s) × All (λ c. class c ≡ true) s
IsPiece (repeat class lo hi) s = (lo ≤ length s) × (length s ≤ hi) × All (λ c. class c ≡ true) s

-- The texts of a row of pieces: a text of the first, and a text of the others behind it.
abbrev pub Matches : List Piece → Bytes → Type 0
Matches [] s = s ≡ []
Matches (p ∷ ps) s = (a : Bytes) × (b : Bytes) × (s ≡ a ++ b) × IsPiece p a × Matches ps b

strip_sound : (p s rest : Bytes) → strip p s ≡ some rest → s ≡ p ++ rest
unfolding strip
strip_sound [] s rest h = ground arith
strip_sound (p ∷ ps) [] rest h = cc
strip_sound (p ∷ ps) (c ∷ s) rest h = ground (arith, strip_sound ps s rest)

strip-append : (p s : Bytes) → strip p (p ++ s) ≡ some s
unfolding strip
strip-append [] s = refl
strip-append (p ∷ ps) s = ground (arith, strip-append ps s)

or_true : (b : Bool) → b || true ≡ true
or_true b = ground arith

module _ (k : Bytes → Bool) where
  -- A split of a text into a part of a kind and a rest that `k` accepts.
  abbrev Splits : (Bytes → Type 0) → Bytes → Type 0
  Splits P s = (a : Bytes) × (b : Bytes) × (s ≡ a ++ b) × P a × (k b ≡ true)

  on_rest_sound : (p s : Bytes) → on_rest k (strip p s) ≡ true → Splits (λ a. a ≡ p) s
  on_rest_sound p s h = go (strip p s) refl h
    where
      go : (o : Option Bytes) → strip p s ≡ o → on_rest k o ≡ true → Splits (λ a. a ≡ p) s
      go none e h = cc
      go (some rest) e h = (p, rest, strip_sound p s rest e, refl, h)

  match_some_sound :
      (class : ℕ → Bool) (s : Bytes)
      → match_some class k s ≡ true
      → Splits (IsPiece (some_of class)) s
  unfolding match_some
  match_some_sound class [] h = cc
  match_some_sound class (c ∷ s) h =
      let (hc, hs) = &&-true _ _ h in
      elim (||-true _ _ hs) [
        | inl done ↦ (c ∷ [], s, refl, (omega arith, (hc, tt)), done)
        | inr more ↦
            let (a, b, e, pa, kb) = match_some_sound class s more in
            (c ∷ a, b, ap (λ t. c ∷ t) e, (omega arith, (hc, pa.1)), kb)
      ]

  match_some_complete :
      (class : ℕ → Bool) (a b : Bytes)
      → IsPiece (some_of class) a
      → k b ≡ true
      → match_some class k (a ++ b) ≡ true
  unfolding match_some
  match_some_complete class [] b h kb = absurd (omega (arith, h.0))
  match_some_complete class (c ∷ []) b h kb = ground arith
  match_some_complete class (c ∷ d ∷ a) b h kb =
      ground (arith, match_some_complete class (d ∷ a) b (omega arith, h.1.1) kb)

  match_repeat_sound :
      (class : ℕ → Bool) (lo hi : ℕ) (s : Bytes)
      → match_repeat class lo hi k s ≡ true
      → lo ≤ hi
      → Splits (IsPiece (repeat class lo hi)) s
  unfolding match_repeat
  match_repeat_sound class lo hi [] h le =
      let (z, kb) = &&-true (lo == 0) (k []) h in
      ([], [], refl, (omega (arith, (==_iff lo 0).0 z), omega arith, tt), kb)
  match_repeat_sound class lo hi (c ∷ s) h le = elim (||-true _ _ h) [
    | inl stop ↦
        let (z, kb) = &&-true (lo == 0) (k (c ∷ s)) stop in
        ([], c ∷ s, refl, (omega (arith, (==_iff lo 0).0 z), omega arith, tt), kb)
    | inr more ↦
        let (test, rest) = &&-true _ _ more in
        let (room, hc) = &&-true _ _ test in
        let below : 0 < hi = ltb→lt 0 hi room in
        let (a, b, e, pa, kb) = match_repeat_sound class (lo - 1) (hi - 1) s rest (omega arith) in
        (c ∷ a, b, ap (λ t. c ∷ t) e, (omega (arith, pa.0), omega (arith, pa.1), (hc, pa.2)), kb)
  ]

  match_repeat_complete :
      (class : ℕ → Bool) (lo hi : ℕ) (a b : Bytes)
      → IsPiece (repeat class lo hi) a
      → k b ≡ true
      → match_repeat class lo hi k (a ++ b) ≡ true
  unfolding match_repeat
  match_repeat_complete class lo hi [] [] h kb = ground arith
  match_repeat_complete class lo hi [] (c ∷ b) h kb = ground arith
  match_repeat_complete class lo hi (c ∷ a) b (few, fits, (hc, hs)) kb =
      ground
        (arith, match_repeat_complete class (lo - 1) (hi - 1) a b (omega arith, omega arith, hs) kb)

-- The patterns that the code can write have lo ≤ hi.
abbrev pub IsProper : Piece → Type 0
IsProper (repeat class lo hi) = lo ≤ hi
IsProper other = Unit

on_head_sound :
    (class : ℕ → Bool) (k : Bytes → Bool) (s : Bytes)
    → on_head class k s ≡ true
    → Splits k (IsPiece (one class)) s
on_head_sound class k [] h = cc
on_head_sound class k (c ∷ s) h =
    let (hc, ks) = &&-true _ _ h in (c ∷ [], s, refl, (c, refl, hc), ks)

-- Every text that a proper row accepts is a text of the row.
pub matches_sound :
    (ps : List Piece) (s : Bytes) → All IsProper ps → matches ps s ≡ true → Matches ps s
unfolding matches
matches_sound [] [] w h = refl
matches_sound [] (c ∷ s) w h = cc
matches_sound (literal p ∷ ps) s w h =
    let (a, b, e, pa, kb) = on_rest_sound (matches ps) p s h in
    (a, b, e, pa, matches_sound ps b w.1 kb)
matches_sound (either p q ∷ ps) s w h = elim (||-true _ _ h) [
  | inl left ↦
      let (a, b, e, pa, kb) = on_rest_sound (matches ps) p s left in
      (a, b, e, inl pa, matches_sound ps b w.1 kb)
  | inr right ↦
      let (a, b, e, pa, kb) = on_rest_sound (matches ps) q s right in
      (a, b, e, inr pa, matches_sound ps b w.1 kb)
]
matches_sound (one class ∷ ps) s w h =
    let (a, b, e, pa, kb) = on_head_sound class (matches ps) s h in
    (a, b, e, pa, matches_sound ps b w.1 kb)
matches_sound (some_of class ∷ ps) s w h =
    let (a, b, e, pa, kb) = match_some_sound (matches ps) class s h in
    (a, b, e, pa, matches_sound ps b w.1 kb)
matches_sound (repeat class lo hi ∷ ps) s w h =
    let (a, b, e, pa, kb) = match_repeat_sound (matches ps) class lo hi s h w.0 in
    (a, b, e, pa, matches_sound ps b w.1 kb)

-- Every text of a row is accepted.
pub matches_complete : (ps : List Piece) (s : Bytes) → Matches ps s → matches ps s ≡ true
unfolding matches
matches_complete [] s h = rw h
matches_complete (literal p ∷ ps) s (a, b, e, pa, h) =
    rw (e, pa, strip-append) (matches_complete ps b h)
matches_complete (either p q ∷ ps) s (a, b, e, inl pa, h) =
    rw (e, pa, strip-append, matches_complete ps b h)
matches_complete (either p q ∷ ps) s (a, b, e, inr pa, h) =
    rw (e, pa, strip-append, matches_complete ps b h) (or_true _)
matches_complete (one class ∷ ps) s (a, b, e, (c, ec, hc), h) =
    rw (e, ec, hc) (matches_complete ps b h)
matches_complete (some_of class ∷ ps) s (a, b, e, pa, h) =
    rw e (match_some_complete (matches ps) class a b pa (matches_complete ps b h))
matches_complete (repeat class lo hi ∷ ps) s (a, b, e, pa, h) =
    rw e (match_repeat_complete (matches ps) class lo hi a b pa (matches_complete ps b h))
