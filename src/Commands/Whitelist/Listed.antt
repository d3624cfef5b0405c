-- ===== src/Commands/Whitelist/Listed.antt =====
-- Which patterns are listed, and that a path is let through exactly if one of them spells it.
use proxmoxvue_agent.Base.{
  ◌≡◌, refl, ◌↔◌, inl, inr, Bool, true, ◌||◌, List, [], ◌∷◌, arith, ||-true, All, Bytes, ℕ, Option,
  some, zero, suc, sym, none,
}
use proxmoxvue_agent.Commands.Whitelist.{endpoint_allowed, any_match, read_endpoint_whitelist}
use proxmoxvue_agent.Pattern.{Piece, matches}
use proxmoxvue_agent.Pattern.Meaning.{Matches, matches_sound, IsProper, matches_complete}
use mathlib.Core.List.{Memᴰ}
use mathlib.Core.Path.{subst}

any_match_sound :
    (res : List (List Piece)) (path : Bytes)
    → any_match res path ≡ true
    → (re : List Piece) × Memᴰ re res × (matches re path ≡ true)
unfolding any_match
any_match_sound [] path h = cc
any_match_sound (re ∷ rest) path h = elim (||-true _ _ h) [
  | inl this ↦ (re, Memᴰ.head refl, this)
  | inr later ↦ let (found, m, e) = any_match_sound rest path later in (found, Memᴰ.tail m, e)
]

or_true : (a : Bool) {b : Bool} → b ≡ true → a || b ≡ true
or_true a h = ground arith

any_match_complete :
    (res : List (List Piece)) (path : Bytes) {re : List Piece}
    → Memᴰ re res
    → matches re path ≡ true
    → any_match res path ≡ true
unfolding any_match
any_match_complete [] path m h = elim m [ ]
any_match_complete (re' ∷ rest) path (Memᴰ.head e) h = rw (← e, h)
any_match_complete (re' ∷ rest) path (Memᴰ.tail m) h =
    or_true (matches re' path) (any_match_complete rest path m h)

pub All-mem {ℓ} : {A : Type ℓ} (P : A → Type 0) (xs : List A) {x : A} → All P xs → Memᴰ x xs → P x
All-mem P [] h m = elim m [ ]
All-mem P (y ∷ xs) h (Memᴰ.head e) = subst P (sym e) h.0
All-mem P (y ∷ xs) h (Memᴰ.tail m) = All-mem P xs h.1 m

-- The element at a place.
unfoldable pub at {ℓ} : {A : Type ℓ} → ℕ → List A → Option A
at n [] = none
at zero (x ∷ xs) = some x
at (suc n) (x ∷ xs) = at n xs

pub mem_at {ℓ} : {A : Type ℓ} (n : ℕ) (xs : List A) {x : A} → at n xs ≡ some x → Memᴰ x xs
unfolding at
mem_at n [] h = absurd (ground arith)
mem_at zero (y ∷ xs) h = Memᴰ.head (ground arith)
mem_at (suc n) (y ∷ xs) h = Memᴰ.tail (mem_at n xs h)

-- A path is let through exactly if it is spelled by one of the patterns.
pub endpoint_allowed-Matches :
    (path : Bytes)
    → (endpoint_allowed path ≡ true)
      ↔ ((re : List Piece) × Memᴰ re read_endpoint_whitelist × Matches re path)
unfolding endpoint_allowed
endpoint_allowed-Matches path = (
  λ h.
      let (re, m, e) = any_match_sound read_endpoint_whitelist path h in
      (
        re,
        m,
        matches_sound re path (All-mem (All IsProper) read_endpoint_whitelist (omega arith) m) e,
      ),
  λ (re, m, h). any_match_complete read_endpoint_whitelist path m (matches_complete re path h),
)
