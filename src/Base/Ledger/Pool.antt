-- ===== src/Base/Ledger/Pool.antt =====
-- Programs that run side by side, as goroutines do: any of them may make its next call, with any
-- reply, and new ones may start.
use proxmoxvue_agent.Base.{ℕ, ◌+◌, ◌-◌, ◌≤◌, ◌≡◌, refl, ap, List, [], ◌∷◌, arith}
use proxmoxvue_agent.Base.Program.{Program, call, Event}
use proxmoxvue_agent.Base.Ledger.{Affords, spent, earned}

module _ {Call : Type 0} {Reply : Call → Type 0} {A : Type 0} where
  -- One program of the pool makes its next call.
  pub data Move
      : List (Program Call Reply A) → Event Call Reply → List (Program Call Reply A) → Type 0 where
    here :
        {c : Call} {k : Reply c → Program Call Reply A} {ps : List (Program Call Reply A)}
        (r : Reply c)
        → Move (call c k ∷ ps) (c, r) (k r ∷ ps)
    there :
        {p : Program Call Reply A} {ps qs : List (Program Call Reply A)} {e : Event Call Reply}
        → Move ps e qs
        → Move (p ∷ ps) e (p ∷ qs)

  -- The pools that are reached from the empty one, with the events so far (the latest first). The
  -- programs that start are those of `Starts`.
  pub data Reach (Starts : Program Call Reply A → Type 0)
      : List (Event Call Reply) → List (Program Call Reply A) → Type 0 where
    idle : Reach Starts [] []
    start :
        {t : List (Event Call Reply)} {ps : List (Program Call Reply A)} (p : Program Call Reply A)
        → Starts p
        → Reach Starts t ps
        → Reach Starts t (p ∷ ps)
    move :
        {t : List (Event Call Reply)} {ps qs : List (Program Call Reply A)} {e : Event Call Reply}
        → Reach Starts t ps
        → Move ps e qs
        → Reach Starts (e ∷ t) qs

module _ {Call : Type 0} {Reply : Call → Type 0} {A : Type 0} (earn : (c : Call) → Reply c → ℕ)
    (spend : Call → ℕ) where
  -- The credit of a pool, shared out among its programs.
  abbrev Funded : List (Program Call Reply A) → ℕ → Type 0
  Funded [] n = n ≡ 0
  Funded (p ∷ ps) n = (k : ℕ) × (m : ℕ) × (n ≡ k + m) × Affords earn spend k p × Funded ps m

  Move-Funded :
      {ps qs : List (Program Call Reply A)} {e : Event Call Reply} (n : ℕ)
      → Move ps e qs
      → Funded ps n
      → (n' : ℕ) × (n' + spend e.0 ≡ n + earn e.0 e.1) × Funded qs n'
  Move-Funded n (here {c} r) (k, m, e, (fits, next), rest) =
      (k - spend c + earn c r + m, omega arith, (k - spend c + earn c r, m, refl, next r, rest))
  Move-Funded n (there mv) (k, m, e, ap, rest) =
      let (m', e', rest') = Move-Funded m mv rest in (k + m', omega arith, (k, m', refl, ap, rest'))

  Reach-Funded :
      (Starts : Program Call Reply A → Type 0)
      → ((p : Program Call Reply A) → Starts p → Affords earn spend 0 p)
      → {t : List (Event Call Reply)} {ps : List (Program Call Reply A)} → Reach Starts t ps
      → (n : ℕ) × (n + spent spend t ≡ earned earn t) × Funded ps n
  Reach-Funded Starts keep idle = (0, omega arith, refl)
  Reach-Funded Starts keep (start p s r) =
      let (n, e, f) = Reach-Funded Starts keep r in (n, e, (0, n, omega arith, keep p s, f))
  Reach-Funded Starts keep (move r mv) =
      let (n, e, f) = Reach-Funded Starts keep r in
      let (n', e', f') = Move-Funded n mv f in (n', omega arith, f')

  -- Programs that each spend no more than they earn do so together, in every interleaving.
  pub spent-le-earned :
      (Starts : Program Call Reply A → Type 0)
      → ((p : Program Call Reply A) → Starts p → Affords earn spend 0 p)
      → {t : List (Event Call Reply)} {ps : List (Program Call Reply A)} → Reach Starts t ps
      → spent spend t ≤ earned earn t
  spent-le-earned Starts keep r = let (n, e, f) = Reach-Funded Starts keep r in omega arith
