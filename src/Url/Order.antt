-- ===== src/Url/Order.antt =====
-- The order in which the entries of a Values were set does not show in its encoding.
use proxmoxvue_agent.Base.{
  ◌≡◌, refl, true, false, [], ◌∷◌, All, arith, ◌≢◌, ◌∙◌, refl, Bytes, arith, All, ap, sym, List,
}
use mathlib.Core.Path.{subst, ap₂}
use mathlib.Core.List.{Permᴰ}
use proxmoxvue_agent.Url.{before, Values, insert, sort, encode, join}

before_asym : (s t : Bytes) → before s t ≡ true → before t s ≡ false
unfolding before
before_asym [] [] h = cc
before_asym [] (d ∷ t) h = refl
before_asym (c ∷ s) [] h = cc
before_asym (c ∷ s) (d ∷ t) h = ground (arith, before_asym s t)

before_total : (s t : Bytes) → before s t ≡ false → before t s ≡ false → s ≡ t
unfolding before
before_total [] [] h k = refl
before_total [] (d ∷ t) h k = cc
before_total (c ∷ s) [] h k = cc
before_total (c ∷ s) (d ∷ t) h k = ground (arith, before_total s t)

before_trans : (s t u : Bytes) → before s t ≡ true → before t u ≡ true → before s u ≡ true
unfolding before
before_trans [] [] u h k = cc
before_trans [] (d ∷ t) [] h k = cc
before_trans [] (d ∷ t) (e ∷ u) h k = refl
before_trans (c ∷ s) [] u h k = cc
before_trans (c ∷ s) (d ∷ t) [] h k = cc
before_trans (c ∷ s) (d ∷ t) (e ∷ u) h k = ground (arith, before_trans s t u)

-- No entry of a list has the key of another one.
abbrev pub Fresh : {V : Type 0} → List (Bytes × V) → Bytes × V → Type 0
Fresh {V} v e = All (λ f. e.0 ≢ f.0) v

-- No two entries have one key.
abbrev pub Distinct : {V : Type 0} → List (Bytes × V) → Type 0
Distinct [] = Unit
Distinct (e ∷ rest) = Fresh rest e × Distinct rest

pub All-perm : {A : Type 0} (P : A → Type 0) {v w : List A} → Permᴰ v w → All P v → All P w
All-perm P Permᴰ.nil h = h
All-perm P (Permᴰ.cons p d) (h, hs) = (subst P p h, All-perm P d hs)
All-perm P (Permᴰ.swap p q) (h, (k, hs)) = (subst P q k, (subst P p h, hs))
All-perm P (Permᴰ.trans d d') h = All-perm P d' (All-perm P d h)

pub Distinct-perm : {V : Type 0} {v w : List (Bytes × V)} → Permᴰ v w → Distinct v → Distinct w
Distinct-perm Permᴰ.nil h = h
Distinct-perm (Permᴰ.cons {b} {l₁} {l₂} p d) (h, hs) =
    (All-perm (λ f. b.0 ≢ f.0) d (subst (Fresh l₁) p h), Distinct-perm d hs)
Distinct-perm {V} (Permᴰ.swap {a} {b} {l} p q) ((ne, ha), (hb, hl)) =
    let key = λ (e : Bytes × V). e.0 in
    (
      (λ e. ne (ap key p ∙ sym e ∙ ap key (sym q)), subst (Fresh l) q hb),
      (subst (Fresh l) p ha, hl),
    )
Distinct-perm (Permᴰ.trans d d') h = Distinct-perm d' (Distinct-perm d h)

insert_comm :
    (e f : Bytes × Bytes) (v : Values) → e.0 ≢ f.0 → insert e (insert f v) ≡ insert f (insert e v)
unfolding insert
insert_comm e f [] ne =
    ground (arith, before_asym e.0 f.0, before_asym f.0 e.0, before_total e.0 f.0)
insert_comm e f (g ∷ v) ne = ground (
  arith,
  before_asym e.0 f.0,
  before_asym f.0 e.0,
  before_total e.0 f.0,
  before_trans e.0 f.0 g.0,
  before_trans f.0 e.0 g.0,
  insert_comm e f v ne,
)

sort-perm : {v w : Values} → Permᴰ v w → Distinct v → sort v ≡ sort w
unfolding sort
sort-perm Permᴰ.nil h = refl
sort-perm (Permᴰ.cons p d) (h, hs) = ap₂ insert p (sort-perm d hs)
sort-perm (Permᴰ.swap {a} {b} {l} p q) ((ne, ha), (hb, hl)) =
    insert_comm a b (sort l) ne ∙ ap₂ (λ x y. insert x (insert y (sort l))) q p
sort-perm (Permᴰ.trans d d') h = sort-perm d h ∙ sort-perm d' (Distinct-perm d h)

-- Two Values with the same entries, set in any order, are encoded to the same text.
pub encode-perm : {v w : Values} → Permᴰ v w → Distinct v → encode v ≡ encode w
unfolding encode
encode-perm d h = ap join (sort-perm d h)
