-- ===== src/Commands/BuildPath/Order.antt =====
-- Go visits a map in an order of its own. The path that comes out does not depend on it.
use mathlib.Core.List.Permᴰ as PermD
use proxmoxvue_agent.Base.{
  ◌≡◌, ◌≢◌, refl, sym, ap, ◌∙◌, ◌⊎◌, inl, inr, Bool, true, false, Option, none, some, [], ◌∷◌, ◌++◌,
  append-nil, append_assoc, arith, if◌then◌else◌, Bool-cases, Option-cases, All, Bytes, str_eq_iff,
  if-cases, if-split, All-append,
}
use proxmoxvue_agent.Base.Failure.{ok}
use proxmoxvue_agent.Url.{set, Values}
use proxmoxvue_agent.Commands.BuildPath.{
  Entries, set_all, param_text, build_from, encode, with_query, entries, has_member,
}
use proxmoxvue_agent.Url.Order.{Distinct, Distinct-perm, encode-perm}
use mathlib.Core.List.{Permᴰ}
use proxmoxvue_agent.Json.{Json, Members, member, end}
use mathlib.Core.Path.{subst}

set_fresh : (k x : Bytes) (q : Values) → All (λ e. e.0 ≢ k) q → set k x q ≡ q ++ (k, x) ∷ []
unfolding set
set_fresh k x [] h = refl
set_fresh k x ((j, y) ∷ q) h = ground (arith, str_eq_iff j k, set_fresh k x q h.1)

-- No parameter has the key of an entry that is set.
abbrev Clear : Values → Entries → Type 0
Clear q = All (λ e. All (λ f. f.0 ≢ e.0) q)

Clear-snoc :
    (k x : Bytes) (q : Values) (es : Entries)
    → All (λ e. k ≢ e.0) es
    → Clear q es
    → Clear (q ++ (k, x) ∷ []) es
Clear-snoc k x q [] new h = tt
Clear-snoc k x q (e ∷ es) (ne, new) (he, h) =
    (All-append (λ f. f.0 ≢ e.0) q ((k, x) ∷ []) he (ne, tt), Clear-snoc k x q es new h)

entries-Fresh :
    (key : Bytes) (ms : Members) → has_member key ms ≡ false → All (λ f. key ≢ f.0) (entries ms)
unfolding entries has_member
entries-Fresh key end h = tt
entries-Fresh key (member k v rest) h =
    let others = entries-Fresh key rest (ground arith) in
    if-cases (λ (es : Entries). All (λ f. key ≢ f.0) es) (has_member k rest) others
      (ground (arith, str_eq_iff k key), others)

entries-Distinct : (ms : Members) → Distinct (entries ms)
unfolding entries has_member
entries-Distinct end = tt
entries-Distinct (member k v rest) =
    if-split (λ (es : Entries). Distinct es) (has_member k rest) (λ again. entries-Distinct rest)
      (λ new. (entries-Fresh k rest new, entries-Distinct rest))

module _ (float_text : Bytes → Option Bytes) where
  -- The parameters with their texts, if all have one.
  texts : Entries → Option Values
  texts [] = some []
  texts ((k, v) ∷ rest) = elim (param_text float_text v) [
    | none ↦ none
    | some x ↦ elim (texts rest) [ none ↦ none | some l ↦ some ((k, x) ∷ l) ]
  ]

  -- What a list of texts is, by its first entry.
  texts-cons :
      (k : Bytes) (v : Json) (rest : Entries) (l : Values)
      → texts ((k, v) ∷ rest) ≡ some l
      → (x : Bytes) × (l' : Values) × (param_text float_text v ≡ some x)
        × (texts rest ≡ some l')
        × (l ≡ (k, x) ∷ l')
  unfolding texts
  texts-cons k v rest l h = go (param_text float_text v) (texts rest) refl refl
    where
      go :
          (o : Option Bytes) (ls : Option Values)
          → param_text float_text v ≡ o
          → texts rest ≡ ls
          → (x : Bytes) × (l' : Values) × (param_text float_text v ≡ some x)
            × (texts rest ≡ some l')
            × (l ≡ (k, x) ∷ l')
      go none ls eo el = absurd (ground arith)
      go (some x) none eo el = absurd (ground arith)
      go (some x) (some l') eo el = (x, l', eo, el, ground arith)

  texts_step :
      (e : Bytes × Json) (rest : Entries) (x : Bytes) (l : Values)
      → param_text float_text e.1 ≡ some x
      → texts rest ≡ some l
      → texts (e ∷ rest) ≡ some ((e.0, x) ∷ l)
  unfolding texts
  texts_step e rest x l ex el = ground arith

  set_all_step :
      (k : Bytes) (v : Json) (rest : Entries) (q : Values) (x : Bytes)
      → param_text float_text v ≡ some x
      → set_all float_text ((k, v) ∷ rest) q ≡ set_all float_text rest (set k x q)
  unfolding set_all
  set_all_step k v rest q x ex = ground arith

  set_all-texts :
      (es : Entries) (q l : Values)
      → texts es ≡ some l
      → Distinct es
      → Clear q es
      → set_all float_text es q ≡ inr (q ++ l)
  unfolding texts set_all
  set_all-texts [] q l h d f = ground (arith, append-nil q)
  set_all-texts ((k, v) ∷ rest) q l h (new, d) (fk, f) =
      let (x, l', ex, er, el) = texts-cons k v rest l h in
      let later = set_all-texts rest (q ++ (k, x) ∷ []) l' er d (Clear-snoc k x q rest new f) in
      set_all_step k v rest q x ex
      ∙ ap (set_all float_text rest) (set_fresh k x q fk)
      ∙ later
      ∙ ap inr (append_assoc q ((k, x) ∷ []) l')
      ∙ ap (λ t. inr (q ++ t)) (sym el)

  -- A loop that goes through found a text for every parameter.
  texts-set_all :
      (es : Entries) (q r : Values)
      → set_all float_text es q ≡ inr r
      → (l : Values) × (texts es ≡ some l)
  unfolding texts set_all
  texts-set_all [] q r h = ([], refl)
  texts-set_all ((k, v) ∷ rest) q r h = elim (Option-cases (param_text float_text v)) [
    | inl e ↦ absurd (ground arith)
    | inr (x, e) ↦
        let (l, el) = texts-set_all rest (set k x q) r (sym (set_all_step k v rest q x e) ∙ h) in
        ((k, x) ∷ l, texts_step (k, v) rest x l e el)
  ]

  texts-perm :
      {es es' : Entries}
      → Permᴰ es es'
      → (l : Values) → texts es ≡ some l
      → (l' : Values) × (texts es' ≡ some l') × Permᴰ l l'
  unfolding texts
  texts-perm Permᴰ.nil l h = (l, h, PermD.refl l)
  texts-perm (Permᴰ.cons {a} {b} {l₁} {l₂} p d) l h =
      let (x, m, ex, em, el) = texts-cons a.0 a.1 l₁ l h in
      let (m', em', dm) = texts-perm d m em in
      (
        (b.0, x) ∷ m',
        texts_step b l₂ x m' (subst (λ e. param_text float_text e.1 ≡ some x) p ex) em',
        subst (λ t. Permᴰ t ((b.0, x) ∷ m')) (sym el) (Permᴰ.cons (ap (λ e. (e.0, x)) p) dm),
      )
  texts-perm (Permᴰ.swap {a} {b} {a'} {b'} {l = rest} p q) l h =
      let (x, m, ex, em, el) = texts-cons a.0 a.1 (b ∷ rest) l h in
      let (y, n, ey, en, em') = texts-cons b.0 b.1 rest m em in
      let moved : param_text float_text b'.1 ≡ some x =
        subst (λ e. param_text float_text e.1 ≡ some x) p ex in
      let moved' : param_text float_text a'.1 ≡ some y =
        subst (λ e. param_text float_text e.1 ≡ some y) q ey in
      (
        (a'.0, y) ∷ (b'.0, x) ∷ n,
        texts_step a' (b' ∷ rest) y ((b'.0, x) ∷ n) moved' (texts_step b' rest x n moved en),
        subst (λ t. Permᴰ t ((a'.0, y) ∷ (b'.0, x) ∷ n)) (sym (el ∙ ap (λ t. (a.0, x) ∷ t) em'))
            (Permᴰ.swap (ap (λ e. (e.0, x)) p) (ap (λ e. (e.0, y)) q)),
      )
  texts-perm (Permᴰ.trans d d') l h =
      let (m, em, dm) = texts-perm d l h in
      let (n, en, dn) = texts-perm d' m em in (n, en, Permᴰ.trans dm dn)

  texts-Fresh :
      (k : Bytes) (es : Entries) (l : Values)
      → texts es ≡ some l
      → All (λ f. k ≢ f.0) es
      → All (λ f. k ≢ f.0) l
  unfolding texts
  texts-Fresh k [] [] h f = tt
  texts-Fresh k [] (e ∷ l) h f = cc
  texts-Fresh k ((j, v) ∷ rest) l h (ne, f) =
      let (x, m, ex, em, el) = texts-cons j v rest l h in rw el (ne, texts-Fresh k rest m em f)

  texts-Distinct : (es : Entries) (l : Values) → texts es ≡ some l → Distinct es → Distinct l
  unfolding texts
  texts-Distinct [] [] h d = tt
  texts-Distinct [] (e ∷ l) h d = cc
  texts-Distinct ((j, v) ∷ rest) l h (new, d) =
      let (x, m, ex, em, el) = texts-cons j v rest l h in
      rw el (texts-Fresh j rest m em new, texts-Distinct rest m em d)

  abbrev is_nil : Entries → Bool
  is_nil [] = true
  is_nil (e ∷ es) = false

  is_nil-perm : {es es' : Entries} → Permᴰ es es' → is_nil es ≡ is_nil es'
  is_nil-perm Permᴰ.nil = refl
  is_nil-perm (Permᴰ.cons p d) = refl
  is_nil-perm (Permᴰ.swap p q) = refl
  is_nil-perm (Permᴰ.trans d d') = is_nil-perm d ∙ is_nil-perm d'

  build_from_lem :
      (endpoint : Bytes) (es : Entries)
      → build_from float_text endpoint es
        ≡ (if is_nil es then ok endpoint else with_query endpoint (set_all float_text es []))
  unfolding build_from
  build_from_lem endpoint [] = refl
  build_from_lem endpoint (e ∷ es) = refl

  with_query_inv :
      (endpoint path : Bytes) (s : Bytes ⊎ Values)
      → with_query endpoint s ≡ ok path
      → (r : Values) × (s ≡ inr r)
  with_query_inv endpoint path (inl k) h = absurd (ground arith)
  with_query_inv endpoint path (inr r) h = (r, refl)

  Clear-nil : (es : Entries) → Clear [] es
  Clear-nil [] = tt
  Clear-nil (e ∷ es) = (tt, Clear-nil es)

  set_all-perm :
      {es es' : Entries} {r : Values}
      → Permᴰ es es'
      → Distinct es
      → set_all float_text es [] ≡ inr r
      → (r' : Values) × (set_all float_text es' [] ≡ inr r') × (encode r ≡ encode r')
  set_all-perm {es} {es'} {r} perm d h =
      let (l, el) = texts-set_all es [] r h in
      let (l', el', dl) = texts-perm perm l el in
      let here = set_all-texts es [] l el d (Clear-nil es) in
      let there = set_all-texts es' [] l' el' (Distinct-perm perm d) (Clear-nil es') in
      let same : r ≡ l = ground arith in
      (l', there, ap encode same ∙ encode-perm dl (texts-Distinct es l el d))

  build_from-Distinct :
      {es es' : Entries} (endpoint path : Bytes)
      → Permᴰ es es'
      → Distinct es
      → build_from float_text endpoint es ≡ ok path
      → build_from float_text endpoint es' ≡ ok path
  build_from-Distinct {es} {es'} endpoint path perm d h = elim (Bool-cases (is_nil es)) [
    | inl empty ↦
        ground (arith, build_from_lem endpoint es, build_from_lem endpoint es', is_nil-perm perm)
    | inr some_entry ↦
        let query : with_query endpoint (set_all float_text es []) ≡ ok path =
          ground (arith, build_from_lem endpoint es) in
        let (r, er) = with_query_inv endpoint path (set_all float_text es []) query in
        let (r', er', same) = set_all-perm perm d er in
        build_from_lem endpoint es'
        ∙ ap (λ b. if b then ok endpoint else with_query endpoint (set_all float_text es' []))
            (sym (is_nil-perm perm) ∙ some_entry)
        ∙ ap (with_query endpoint) er'
        ∙ ap (λ t. ok (endpoint ++ b'?' ∷ t)) (sym same)
        ∙ sym (ap (with_query endpoint) er)
        ∙ query
  ]

  -- The path that the agent asks for does not depend on the order in which Go visits the map of the
  -- parameters: if the order of the document gives a path, every order gives that path.
  pub build_from-perm :
      (ms : Members) {es : Entries} (endpoint path : Bytes)
      → Permᴰ (entries ms) es
      → build_from float_text endpoint (entries ms) ≡ ok path
      → build_from float_text endpoint es ≡ ok path
  build_from-perm ms endpoint path perm h =
      build_from-Distinct endpoint path perm (entries-Distinct ms) h
