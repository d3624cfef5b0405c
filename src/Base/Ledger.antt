-- ===== src/Base/Ledger.antt =====
-- Accounts over programs: replies earn credit, calls spend it. A program that never spends what it
-- has not earned keeps doing so in any interleaving with others.
pub mod Pool
use proxmoxvue_agent.Base.{
  ℕ, zero, suc, ◌+◌, ◌-◌, ◌*◌, ◌/◌, ◌%◌, ◌^◌, ◌≤◌, ◌<◌, ◌≡◌, ◌≢◌, refl, sym, ap, ◌∙◌, ◌↔◌, ◌⊎◌, inl,
  inr, Bool, true, false, not, ◌&&◌, ◌||◌, Option, none, some, List, [], ◌∷◌, ◌++◌, map, append-nil,
  append_assoc, arith, ltb, leb, ◌==◌, if◌then◌else◌, ==_iff, Bool-cases, Option-cases, &&-true,
  ||-true, length, take, drop, all, any, All, Bytes, codes, str_eq, str_eq_iff, str_eq→eq,
  str_eq_refl, is_empty, format_nat,
}
use proxmoxvue_agent.Base.Program.{Program, ret, call, ◌>>=◌, ◌>>◌, perform, Event, World, run}

module _ {Call : Type 0} {Reply : Call → Type 0} {A : Type 0} (earn : (c : Call) → Reply c → ℕ)
    (spend : Call → ℕ) where
  -- Whatever the replies, the program spends at most its credit and what it earns on the way.
  abbrev pub Affords : ℕ → Program Call Reply A → Type 0
  Affords n (ret a) = Unit
  Affords n (call c k) = (spend c ≤ n) × ((r : Reply c) → Affords (n - spend c + earn c r) (k r))

  -- The same, and it ends with nothing left.
  abbrev pub Settles : ℕ → Program Call Reply A → Type 0
  Settles n (ret a) = n ≡ 0
  Settles n (call c k) = (spend c ≤ n) × ((r : Reply c) → Settles (n - spend c + earn c r) (k r))

module _ {Call : Type 0} {Reply : Call → Type 0} where
  abbrev pub earned : ((c : Call) → Reply c → ℕ) → List (Event Call Reply) → ℕ
  earned earn [] = 0
  earned earn ((c, r) ∷ t) = earn c r + earned earn t

  abbrev pub spent : (Call → ℕ) → List (Event Call Reply) → ℕ
  spent spend [] = 0
  spent spend ((c, r) ∷ t) = spend c + spent spend t

module _ {Call : Type 0} {Reply : Call → Type 0} {A : Type 0} (earn : (c : Call) → Reply c → ℕ)
    (spend : Call → ℕ) where
  pub settles→affords :
      (n : ℕ) (p : Program Call Reply A) → Settles earn spend n p → Affords earn spend n p
  settles→affords n (ret a) h = tt
  settles→affords n (call c k) (fits, next) =
      (fits, λ r. settles→affords (n - spend c + earn c r) (k r) (next r))

  -- In a run that ends, what was spent is the credit and what was earned.
  pub run-Settles :
      (w : World Call Reply) (past : List (Event Call Reply)) (n : ℕ) (p : Program Call Reply A)
      → Settles earn spend n p
      → spent spend (run w past p).1 + earned earn past
        ≡ n + spent spend past + earned earn (run w past p).1
  run-Settles w past n (ret a) h = omega arith
  run-Settles w past n (call c k) (fits, next) =
      let r = w past c in
      omega (arith, run-Settles w ((c, r) ∷ past) (n - spend c + earn c r) (k r) (next r))

  pub run-Affords :
      (w : World Call Reply) (past : List (Event Call Reply)) (n : ℕ) (p : Program Call Reply A)
      → Affords earn spend n p
      → spent spend (run w past p).1 + earned earn past
        ≤ n + spent spend past + earned earn (run w past p).1
  run-Affords w past n (ret a) h = omega arith
  run-Affords w past n (call c k) (fits, next) =
      let r = w past c in
      omega (arith, run-Affords w ((c, r) ∷ past) (n - spend c + earn c r) (k r) (next r))

module _ {Call : Type 0} {Reply : Call → Type 0} {A : Type 0} where
  -- Every call that the program can make has a property.
  abbrev pub Always : (Call → Type 0) → Program Call Reply A → Type 0
  Always P (ret a) = Unit
  Always P (call c k) = P c × ((r : Reply c) → Always P (k r))

  -- Behind the events of `past`, every way to end leaves a result and events of a kind.
  abbrev pub Ends :
      (A → List (Event Call Reply) → Type 0)
      → List (Event Call Reply)
      → Program Call Reply A
      → Type 0
  Ends J past (ret a) = J a past
  Ends J past (call c k) = (r : Reply c) → Ends J ((c, r) ∷ past) (k r)

  pub run-Always :
      (P : Call → Type 0) (w : World Call Reply) (past : List (Event Call Reply))
      (p : Program Call Reply A)
      → Always P p
      → All (λ e. P e.0) past
      → All (λ e. P e.0) (run w past p).1
  run-Always P w past (ret a) h hs = hs
  run-Always P w past (call c k) (hc, next) hs =
      let r = w past c in run-Always P w ((c, r) ∷ past) (k r) (next r) (hc, hs)

  pub run-Ends :
      (J : A → List (Event Call Reply) → Type 0) (w : World Call Reply)
      (past : List (Event Call Reply)) (p : Program Call Reply A)
      → Ends J past p
      → J (run w past p).0 (run w past p).1
  run-Ends J w past (ret a) h = h
  run-Ends J w past (call c k) h = let r = w past c in run-Ends J w ((c, r) ∷ past) (k r) (h r)

module _ {Call : Type 0} {Reply : Call → Type 0} {A : Type 0} where
  -- Two guarantees are one.
  pub Ends-and :
      (J K : A → List (Event Call Reply) → Type 0) (past : List (Event Call Reply))
      (p : Program Call Reply A)
      → Ends J past p
      → Ends K past p
      → Ends (λ a t. J a t × K a t) past p
  Ends-and J K past (ret a) h k = (h, k)
  Ends-and J K past (call c f) h k = λ r. Ends-and J K ((c, r) ∷ past) (f r) (h r) (k r)

  pub Ends-mono :
      (J K : A → List (Event Call Reply) → Type 0) (past : List (Event Call Reply))
      (p : Program Call Reply A)
      → ((a : A) (t : List (Event Call Reply)) → J a t → K a t)
      → Ends J past p
      → Ends K past p
  Ends-mono J K past (ret a) go h = go a past h
  Ends-mono J K past (call c f) go h = λ r. Ends-mono J K ((c, r) ∷ past) (f r) go (h r)

module _ {Call : Type 0} {Reply : Call → Type 0} {A : Type 0} where
  pub Ends-any :
      (past : List (Event Call Reply)) (p : Program Call Reply A) → Ends (λ a t. Unit) past p
  Ends-any past (ret a) = tt
  Ends-any past (call c k) = λ r. Ends-any ((c, r) ∷ past) (k r)

module _ {Call : Type 0} {Reply : Call → Type 0} {A B : Type 0} where
  -- What one program leaves is where the next begins.
  pub Ends-bind :
      (J : A → List (Event Call Reply) → Type 0) (K : B → List (Event Call Reply) → Type 0)
      (past : List (Event Call Reply)) (m : Program Call Reply A) (f : A → Program Call Reply B)
      → Ends J past m
      → ((a : A) (t : List (Event Call Reply)) → J a t → Ends K t (f a))
      → Ends K past (m >>= f)
  Ends-bind J K past (ret a) f h go = go a past h
  Ends-bind J K past (call c k) f h go = λ r. Ends-bind J K ((c, r) ∷ past) (k r) f (h r) go
