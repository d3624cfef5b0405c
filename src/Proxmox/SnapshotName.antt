-- ===== src/Proxmox/SnapshotName.antt =====
-- SnapshotNamePattern of internal/proxmox/actions.go, and what a name that passes it looks like.
use proxmoxvue_agent.Base.{
  ℕ, ◌≤◌, ◌≡◌, refl, sym, append-nil, ◌↔◌, Bool, true, ◌||◌, List, [], ◌∷◌, Bytes, length, All,
  arith, ◌==◌,
}
use proxmoxvue_agent.Pattern.{Piece, one, repeat, is_letter, is_digit, matches}
use proxmoxvue_agent.Pattern.Meaning.{matches_sound, matches_complete}
use proxmoxvue_agent.Url.{path_escape, query_escape}

-- [a-zA-Z0-9_-]
abbrev pub is_name_byte : ℕ → Bool
is_name_byte c = is_letter c || is_digit c || c == b'_' || c == b'-'

-- ^[a-zA-Z][a-zA-Z0-9_-]{1,39}$
abbrev pub snapshot_name_pattern : List Piece
snapshot_name_pattern = one is_letter ∷ repeat is_name_byte 1 39 ∷ []

-- SnapshotNamePattern.MatchString(name)
unfoldable pub is_snapshot_name : Bytes → Bool
unfolding matches
is_snapshot_name name = matches snapshot_name_pattern name

-- A letter, and 1 to 39 letters, digits, dashes and underscores behind it.
abbrev pub IsSnapshotName : Bytes → Type 0
IsSnapshotName [] = ⊥
IsSnapshotName (c ∷ s) =
    (is_letter c ≡ true) × (1 ≤ length s) × (length s ≤ 39) × All (λ d. is_name_byte d ≡ true) s

-- The pattern accepts exactly the names of 2 to 40 bytes that begin with a letter and go on with
-- letters, digits, dashes and underscores.
pub is_snapshot_name_iff : (name : Bytes) → (is_snapshot_name name ≡ true) ↔ IsSnapshotName name
unfolding is_snapshot_name
is_snapshot_name_iff name = (sound name, complete name)
  where
    sound : (n : Bytes) → matches snapshot_name_pattern n ≡ true → IsSnapshotName n
    sound n h =
        let (a, b, e, (c, ea, hc), (u, v, e', letters, ev)) =
          matches_sound snapshot_name_pattern n (tt, (omega arith, tt)) h in
        rw (e, ea, e', ev, append-nil) (hc, letters.0, letters.1, letters.2)

    complete : (n : Bytes) → IsSnapshotName n → matches snapshot_name_pattern n ≡ true
    complete [] h = absurd h
    complete (c ∷ s) (hc, few, fits, hs) =
        matches_complete snapshot_name_pattern (c ∷ s)
          (c ∷ [], s, refl, (c, refl, hc), (s, [], sym (append-nil s), (few, fits, hs), refl))

path_escape-name : (s : Bytes) → All (λ d. is_name_byte d ≡ true) s → path_escape s ≡ s
unfolding path_escape
path_escape-name [] h = refl
path_escape-name (c ∷ s) (hc, hs) = ground (arith, path_escape-name s hs)

query_escape-name : (s : Bytes) → All (λ d. is_name_byte d ≡ true) s → query_escape s ≡ s
unfolding query_escape
query_escape-name [] h = refl
query_escape-name (c ∷ s) (hc, hs) = ground (arith, query_escape-name s hs)

name_bytes : (s : Bytes) → IsSnapshotName s → All (λ d. is_name_byte d ≡ true) s
name_bytes [] h = absurd h
name_bytes (c ∷ s) (hc, few, fits, hs) = (ground arith, hs)

-- A name that passes the pattern is written into a URL path and into a form as it is: no byte of it
-- is escaped, so none of it can end the path segment or the form field that it stands in.
pub escape_snapshot_name :
    (name : Bytes)
    → is_snapshot_name name ≡ true
    → (path_escape name ≡ name) × (query_escape name ≡ name)
escape_snapshot_name name h =
    let bytes = name_bytes name ((is_snapshot_name_iff name).0 h) in
    (path_escape-name name bytes, query_escape-name name bytes)
