-- ===== src/Json/Decoded.antt =====
-- What a field of an object was, for the text that it is decoded to.
use proxmoxvue_agent.Base.{
  ◌≡◌, refl, ◌⊎◌, inl, inr, false, Option, none, some, arith, Bytes, codes, is_empty, [], ◌++◌, sym,
}
use proxmoxvue_agent.Base.Failure.{ok, err}
use proxmoxvue_agent.Json.{
  Json, null, bool, number, string, array, object, Members, find, decode_string, mismatch, describe,
}
use mathlib.Core.Path.{subst}

-- A field that is absent, or a string.
pub data IsText : Option Json → Type 0 where
  absent : IsText none
  a_string : (s : Bytes) → IsText (some (string s))

module _ (struct name : Bytes) (ms : Members) where
  -- A text comes of a string, or it is empty and the field is absent.
  pub decode_string-cases :
      (v : Bytes)
      → decode_string struct name ms ≡ ok v
      → (find name ms ≡ some (string v)) ⊎ ((find name ms ≡ none) × (v ≡ []))
  unfolding decode_string
  decode_string-cases v = go (find name ms)
    where
      go :
          (o : Option Json)
          → elim o [
            | none ↦ ok []
            | some value ↦ elim value [
              | string s ↦ ok s
              | other ↦ err (mismatch (describe other) (struct ++ name) (codes "string"))
            ]
          ]
            ≡ ok v
          → (o ≡ some (string v)) ⊎ ((o ≡ none) × (v ≡ []))
      go none h = inr (refl, ground arith)
      go (some null) h = absurd (ground arith)
      go (some (bool b)) h = absurd (ground arith)
      go (some (number literal)) h = absurd (ground arith)
      go (some (string s)) h = inl (ground arith)
      go (some (array items)) h = absurd (ground arith)
      go (some (object fields)) h = absurd (ground arith)

  pub decode_string-absent : find name ms ≡ none → decode_string struct name ms ≡ ok []
  unfolding decode_string
  decode_string-absent h = rw (h, decode_string) refl

  -- A text that is not empty was there as a string.
  pub decode_string-found :
      (v : Bytes)
      → is_empty v ≡ false
      → decode_string struct name ms ≡ ok v
      → find name ms ≡ some (string v)
  decode_string-found v there h = elim (decode_string-cases v h) [
    | inl was_string ↦ was_string
    | inr (absent_field, blank) ↦ absurd (ground arith)
  ]

  pub decode_string-IsText :
      (v : Bytes) → decode_string struct name ms ≡ ok v → IsText (find name ms)
  decode_string-IsText v h = elim (decode_string-cases v h) [
    | inl was_string ↦ subst IsText (sym was_string) (a_string v)
    | inr (absent_field, blank) ↦ subst IsText (sym absent_field) absent
  ]

  pub decode_string-string :
      (v : Bytes) → find name ms ≡ some (string v) → decode_string struct name ms ≡ ok v
  unfolding decode_string
  decode_string-string v h = rw (h, decode_string) refl

  pub decode_string-text :
      IsText (find name ms) → (v : Bytes) × (decode_string struct name ms ≡ ok v)
  unfolding decode_string
  decode_string-text h = go (find name ms) h
    where
      go :
          (o : Option Json)
          → IsText o
          → (v : Bytes) × (elim o [
            | none ↦ ok []
            | some value ↦ elim value [
              | string s ↦ ok s
              | other ↦ err (mismatch (describe other) (struct ++ name) (codes "string"))
            ]
          ]
              ≡ ok v)
      go none h = ([], refl)
      go (some (string s)) h = (s, refl)
      go (some null) h = elim h [ ]
      go (some (bool b)) h = elim h [ ]
      go (some (number literal)) h = elim h [ ]
      go (some (array items)) h = elim h [ ]
      go (some (object fields)) h = elim h [ ]
