-- ===== src/Base/Program.antt =====
-- A program that calls its environment: a tree of calls with a branch for each reply.
use mathlib.Core.List.{List, ◌∷◌}

pub data Program {ℓ} (Call : Type 0) (Reply : Call → Type 0) (A : Type ℓ) : Type ℓ where
  ret : A → Program Call Reply A
  call : (c : Call) → (Reply c → Program Call Reply A) → Program Call Reply A

module _ {Call : Type 0} {Reply : Call → Type 0} where
  infixl 5 ◌>>=◌ ◌>>◌
  abbrev pub ◌>>=◌ {ℓ κ} :
      {A : Type ℓ} {B : Type κ}
      → Program Call Reply A
      → (A → Program Call Reply B)
      → Program Call Reply B
  ret a >>= f = f a
  call c k >>= f = call c (λ r. k r >>= f)

  abbrev pub ◌>>◌ {ℓ κ} :
      {A : Type ℓ} {B : Type κ} → Program Call Reply A → Program Call Reply B → Program Call Reply B
  m >> n = m >>= λ _. n

  abbrev pub perform : (c : Call) → Program Call Reply (Reply c)
  perform c = call c ret

-- A call that was made, with its reply.
abbrev pub Event : (Call : Type 0) → (Call → Type 0) → Type 0
Event Call Reply = (c : Call) × Reply c

-- An environment answers each call as it likes, with all earlier events in view (the latest first);
-- it stands for any behaviour of the server, the network, the clock and other agents.
abbrev pub World : (Call : Type 0) → (Call → Type 0) → Type 0
World Call Reply = List (Event Call Reply) → (c : Call) → Reply c

module _ {Call : Type 0} {Reply : Call → Type 0} where
  -- A run's result, with the events of the run in front of `past`.
  abbrev pub run {ℓ} :
      {A : Type ℓ}
      → World Call Reply
      → List (Event Call Reply)
      → Program Call Reply A
      → A × List (Event Call Reply)
  run w past (ret a) = (a, past)
  run w past (call c k) = let r = w past c in run w ((c, r) ∷ past) (k r)
