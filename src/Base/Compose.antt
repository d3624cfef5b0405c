-- ===== src/Base/Compose.antt =====
-- Programs that run on programs: each call of one level is carried out by a program of the level
-- below, with a state that is passed along. None stops it all, as a panic does.
use proxmoxvue_agent.Base.{Option, none, some, List, [], ◌∷◌}
use proxmoxvue_agent.Base.Program.{Program, ret, call, ◌>>=◌, Event}
use proxmoxvue_agent.Base.Ledger.{Ends, Ends-bind}

module _ {Call : Type 0} {Reply : Call → Type 0} {Low : Type 0} {Answer : Low → Type 0}
    (inject : Call → Low) (reads : (c : Call) → Answer (inject c) → Reply c) where
  -- A program of one component as a program of a system in which its calls are named by `inject`.
  abbrev pub lift {ℓ} : {A : Type ℓ} → Program Call Reply A → Program Low Answer A
  lift (ret a) = ret a
  lift (call c k) = call (inject c) (λ r. lift (k (reads c r)))

  -- Behind the events of `base`, the events of the system stand for those of the component.
  pub data Stands (base : List (Event Low Answer))
      : List (Event Call Reply) → List (Event Low Answer) → Type 0 where
    none_yet : Stands base [] base
    one_more :
        {u : List (Event Call Reply)} {t : List (Event Low Answer)} (c : Call)
        (r : Answer (inject c))
        → Stands base u t
        → Stands base ((c, reads c r) ∷ u) ((inject c, r) ∷ t)

  -- What a component guarantees by itself it guarantees in the system.
  pub lift-Ends :
      {A : Type 0} (J : A → List (Event Call Reply) → Type 0) (base : List (Event Low Answer))
      (u : List (Event Call Reply)) (t : List (Event Low Answer)) (p : Program Call Reply A)
      → Stands base u t
      → Ends J u p
      → Ends (λ a t'. (u' : List (Event Call Reply)) × Stands base u' t' × J a u') t (lift p)
  lift-Ends J base u t (ret a) st h = (u, st, h)
  lift-Ends J base u t (call c k) st h = λ r.
      lift-Ends J base ((c, reads c r) ∷ u) ((inject c, r) ∷ t) (k (reads c r)) (one_more c r st)
        (h (reads c r))

module _ {Call : Type 0} {Reply : Call → Type 0} {Low : Type 0} {Answer : Low → Type 0}
    {S : Type 0} where
  abbrev pub interpret :
      ((c : Call) → S → Program Low Answer (Option (Reply c × S)))
      → {A : Type 0} → Program Call Reply A
      → S
      → Program Low Answer (Option (A × S))
  interpret carry_out (ret a) s = ret (some (a, s))
  interpret carry_out (call c k) s =
      carry_out c s >>= elim [ none ↦ ret none | some (r, s') ↦ interpret carry_out (k r) s' ]

  -- `Halts` says when it all may stop; `Does` says what the lower level does for a call: from a state and events to a reply, a state and
  -- events.
  module _ (Halts : List (Event Low Answer) → Type 0)
      (Does : (c : Call)
        → S
        → List (Event Low Answer)
        → Reply c
        → S
        → List (Event Low Answer)
        → Type 0) where
    abbrev pub Fulfils :
        (c : Call)
        → S
        → List (Event Low Answer)
        → Option (Reply c × S)
        → List (Event Low Answer)
        → Type 0
    Fulfils c s u none u' = Halts u'
    Fulfils c s u (some (r, s')) u' = Does c s u r s' u'

    -- The events of the lower level carry out those of the upper one, each in its turn.
    pub data Carries (s : S) (u : List (Event Low Answer))
        : List (Event Call Reply) → S → List (Event Low Answer) → Type 0 where
      nothing : Carries s u [] s u
      carried :
          {t : List (Event Call Reply)} {s' s'' : S} {u' u'' : List (Event Low Answer)} (c : Call)
          (r : Reply c)
          → Carries s u t s' u'
          → Does c s' u' r s'' u''
          → Carries s u ((c, r) ∷ t) s'' u''

    -- A result of the upper level, on which its own guarantee holds.
    abbrev pub Refines :
        {A : Type 0}
        → (A → List (Event Call Reply) → Type 0)
        → S
        → List (Event Low Answer)
        → Option (A × S)
        → List (Event Low Answer)
        → Type 0
    Refines J s u none u' = Halts u'
    Refines J s u (some (a, s')) u' = (t : List (Event Call Reply)) × Carries s u t s' u' × J a t

    module _ (carry_out : (c : Call) → S → Program Low Answer (Option (Reply c × S)))
        (keeps : (c : Call) (s : S) (u : List (Event Low Answer))
          → Ends (Fulfils c s u) u (carry_out c s))
        {A : Type 0} (J : A → List (Event Call Reply) → Type 0) (s : S)
        (u : List (Event Low Answer)) where
      then-Ends :
          (c : Call) (s' : S) (u' : List (Event Low Answer))
          (f : Reply c → S → Program Low Answer (Option (A × S)))
          → ((r : Reply c) (s'' : S) (u'' : List (Event Low Answer))
              → Does c s' u' r s'' u''
              → Ends (Refines J s u) u'' (f r s''))
          → (out : Option (Reply c × S)) (u'' : List (Event Low Answer)) → Fulfils c s' u' out u''
          → Ends (Refines J s u) u'' (elim out [ none ↦ ret none | some (r, s'') ↦ f r s'' ])
      then-Ends c s' u' f go none u'' h = h
      then-Ends c s' u' f go (some (r, s'')) u'' h = go r s'' u'' h

      -- A guarantee of the upper level holds on the lower one, if each call keeps its contract.
      pub interpret-Ends :
          (t : List (Event Call Reply)) (s' : S) (u' : List (Event Low Answer))
          (p : Program Call Reply A)
          → Carries s u t s' u'
          → Ends J t p
          → Ends (Refines J s u) u' (interpret carry_out p s')
      interpret-Ends t s' u' (ret a) done h = (t, done, h)
      interpret-Ends t s' u' (call c k) done h =
          Ends-bind (Fulfils c s' u') (Refines J s u) u' (carry_out c s') _ (keeps c s' u') (
            then-Ends c s' u' (λ r. interpret carry_out (k r))
              (λ r s'' u'' does.
                interpret-Ends ((c, r) ∷ t) s'' u'' (k r) (carried c r done does) (h r)))
