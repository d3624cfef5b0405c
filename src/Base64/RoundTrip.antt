-- ===== src/Base64/RoundTrip.antt =====
-- What is encoded is decoded to itself.
use proxmoxvue_agent.Base.{
  ℕ, ◌+◌, ◌*◌, ◌/◌, ◌%◌, ◌<◌, ◌≡◌, ◌≢◌, refl, ◌∙◌, some, [], ◌∷◌, arith, All, Bytes,
}
use proxmoxvue_agent.Base64.{
  strip_newlines, symbol, sextet, quanta, quantum, last_quantum, encode, decode, attach,
}
use proxmoxvue_agent.Base.Failure.{ok}
use mathlib.Core.Path.{ap₂}

sextet-symbol : (n : ℕ) → n < 64 → sextet (symbol n) ≡ some n
unfolding sextet symbol
sextet-symbol n h = ground arith

symbol_plain : (n : ℕ) → n < 64 → (symbol n ≢ 10) × (symbol n ≢ 13) × (symbol n ≢ b'=')
unfolding symbol
symbol_plain n h = ground arith

abbrev pub IsByte : ℕ → Type 0
IsByte c = c < 256

abbrev IsPlain : ℕ → Type 0
IsPlain c = (c ≢ 10) × (c ≢ 13)

strip_newlines-plain : (s : Bytes) → All IsPlain s → strip_newlines s ≡ s
unfolding strip_newlines
strip_newlines-plain [] h = refl
strip_newlines-plain (c ∷ s) h = ground (arith, strip_newlines-plain s h.1)

IsPlain-symbol : (n : ℕ) → n < 64 → IsPlain (symbol n)
IsPlain-symbol n h = let (a, b, c) = symbol_plain n h in (a, b)

encode-IsPlain : (s : Bytes) → All IsByte s → All IsPlain (encode s)
unfolding encode
encode-IsPlain [] h = tt
encode-IsPlain (a ∷ []) h = (
  IsPlain-symbol (a / 4) (omega arith),
  (IsPlain-symbol (a % 4 * 16) (omega arith), (omega arith)),
)
encode-IsPlain (a ∷ b ∷ []) h = (
  IsPlain-symbol (a / 4) (omega arith),
  (
    IsPlain-symbol (a % 4 * 16 + b / 16) (omega arith),
    (IsPlain-symbol (b % 16 * 4) (omega arith), omega arith),
  ),
)
encode-IsPlain (a ∷ b ∷ c ∷ s) (ha, (hb, (hc, hs))) = (
  IsPlain-symbol (a / 4) (omega arith),
  (
    IsPlain-symbol (a % 4 * 16 + b / 16) (omega arith),
    (
      IsPlain-symbol (b % 16 * 4 + c / 64) (omega arith),
      (IsPlain-symbol (c % 64) (omega arith), encode-IsPlain s hs),
    ),
  ),
)

quantum-encode :
    (a b c : ℕ)
    → IsByte a
    → IsByte b
    → IsByte c
    → quantum
        (symbol (a / 4))
        (symbol (a % 4 * 16 + b / 16))
        (symbol (b % 16 * 4 + c / 64))
        (symbol (c % 64))
      ≡ some (a ∷ b ∷ c ∷ [])
unfolding quantum
quantum-encode a b c ha hb hc = ground (
  arith,
  sextet-symbol (a / 4),
  sextet-symbol (a % 4 * 16 + b / 16),
  sextet-symbol (b % 16 * 4 + c / 64),
  sextet-symbol (c % 64),
)

last_one :
    (a : ℕ)
    → IsByte a
    → last_quantum (symbol (a / 4)) (symbol (a % 4 * 16)) b'=' b'=' ≡ some (a ∷ [])
unfolding last_quantum
last_one a ha = ground (arith, sextet-symbol (a / 4), sextet-symbol (a % 4 * 16))

last_two :
    (a b : ℕ)
    → IsByte a
    → IsByte b
    → last_quantum (symbol (a / 4)) (symbol (a % 4 * 16 + b / 16)) (symbol (b % 16 * 4)) b'='
      ≡ some (a ∷ b ∷ [])
unfolding last_quantum
last_two a b ha hb = ground (
  arith,
  sextet-symbol (a / 4),
  sextet-symbol (a % 4 * 16 + b / 16),
  sextet-symbol (b % 16 * 4),
  symbol_plain (b % 16 * 4),
)

quanta_step :
    (a b c d : ℕ) (s : Bytes)
    → d ≢ b'='
    → quanta (a ∷ b ∷ c ∷ d ∷ s) ≡ attach (quantum a b c d) (quanta s)
unfolding quanta
quanta_step a b c d s h = ground arith

quanta-encode : (s : Bytes) → All IsByte s → quanta (encode s) ≡ some s
unfolding quanta encode
quanta-encode [] h = refl
quanta-encode (a ∷ []) h = ground (arith, last_one a h.0)
quanta-encode (a ∷ b ∷ []) h = ground (arith, last_two a b h.0 h.1.0)
quanta-encode (a ∷ b ∷ c ∷ s) (ha, (hb, (hc, hs))) =
    let (p, q, plain) = symbol_plain (c % 64) (omega arith) in
    quanta_step (symbol (a / 4)) (symbol (a % 4 * 16 + b / 16)) (symbol (b % 16 * 4 + c / 64))
      (symbol (c % 64)) (encode s) plain
    ∙ ap₂ attach (quantum-encode a b c ha hb hc) (quanta-encode s hs)

-- Whatever bytes are encoded, decoding the text gives them back.
pub decode-encode : (s : Bytes) → All IsByte s → decode (encode s) ≡ ok s
unfolding decode
decode-encode s h =
    rw (decode, strip_newlines-plain (encode s) (encode-IsPlain s h), quanta-encode s h)
