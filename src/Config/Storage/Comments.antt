-- ===== src/Config/Storage/Comments.antt =====
-- What Save makes of the settings: comments and no more.
use proxmoxvue_agent.Base.{
  ◌≡◌, refl, sym, ap, ◌∙◌, Bool, true, false, ◌&&◌, ◌||◌, Option, none, some, List, [], ◌∷◌, ◌++◌,
  arith, ◌==◌, Bytes, codes,
}
use proxmoxvue_agent.Base.Program.{Event, World, run}
use proxmoxvue_agent.Base.Failure.{Failure, wrap, Result, ok, err, wrap_err}
use mathlib.Core.Path.{subst}
use proxmoxvue_agent.Config.Storage.{
  written, File, Node, Nodes, document, mapping, sequence, scalar, alias, nil, cons, value_of,
  with_comment, annotate_key, annotate_comments, annotate_all, annotate_pairs, dotted, entry,
  field_head_comments, config_header, Yaml, Call, Reply, write_file, rendered, save,
}
use mathlib.Core.Path.{ap₂}
use proxmoxvue_agent.Base.Ledger.{Ends, run-Ends}

-- A document without its comments.
abbrev mutual
  pub plain : Node → Node
  plain (document comment content) = document [] (plain_all content)
  plain (mapping comment content) = mapping [] (plain_all content)
  plain (sequence comment content) = sequence [] (plain_all content)
  plain (scalar comment value) = scalar [] value
  plain (alias comment value) = alias [] value

  pub plain_all : Nodes → Nodes
  plain_all nil = nil
  plain_all (cons n rest) = cons (plain n) (plain_all rest)

plain-with_comment : (c : Bytes) (n : Node) → plain (with_comment c n) ≡ plain n
plain-with_comment c (document comment content) = refl
plain-with_comment c (mapping comment content) = refl
plain-with_comment c (sequence comment content) = refl
plain-with_comment c (scalar comment value) = refl
plain-with_comment c (alias comment value) = refl

plain-annotate_key : (path : Bytes) (key : Node) → plain (annotate_key path key) ≡ plain key
unfolding annotate_key
plain-annotate_key path key = go (entry path field_head_comments)
  where
    go :
        (c : Option Bytes) → plain (elim c [ none ↦ key | some c ↦ with_comment c key ]) ≡ plain key
    go none = refl
    go (some c) = plain-with_comment c key

mutual
  unfolding annotate_comments

  pub plain-annotate_comments :
      (n : Node) (prefix : Bytes) → plain (annotate_comments n prefix) ≡ plain n
  plain-annotate_comments (document comment content) prefix =
      ap (document []) (plain-annotate_all content prefix)
  plain-annotate_comments (mapping comment content) prefix =
      ap (mapping []) (plain-annotate_pairs content prefix)
  plain-annotate_comments (sequence comment content) prefix = refl
  plain-annotate_comments (scalar comment value) prefix = refl
  plain-annotate_comments (alias comment value) prefix = refl

  plain-annotate_all :
      (ns : Nodes) (prefix : Bytes) → plain_all (annotate_all ns prefix) ≡ plain_all ns
  plain-annotate_all nil prefix = refl
  plain-annotate_all (cons n rest) prefix =
      ap₂ cons (plain-annotate_comments n prefix) (plain-annotate_all rest prefix)

  plain-annotate_pairs :
      (ns : Nodes) (prefix : Bytes) → plain_all (annotate_pairs ns prefix) ≡ plain_all ns
  plain-annotate_pairs nil prefix = refl
  plain-annotate_pairs (cons key nil) prefix = refl
  plain-annotate_pairs (cons key (cons value rest)) prefix =
      let path = dotted prefix (value_of key) in
      ap₂ cons (plain-annotate_key path key)
        (ap₂ cons (plain-annotate_comments value path) (plain-annotate_pairs rest prefix))

-- Every line of the text is a comment or empty; `fresh` says that a line begins.
abbrev pub comment_lines : Bool → Bytes → Bool
comment_lines fresh [] = fresh
comment_lines false (c ∷ s) = comment_lines (c == b'\n') s
comment_lines true (c ∷ s) = (c == b'\n' || c == b'#') && comment_lines (c == b'\n') s

header_is_comment : comment_lines true config_header ≡ true
header_is_comment = refl

-- The comment at the head of a node.
abbrev pub comment_of : Node → Bytes
comment_of (document comment content) = comment
comment_of (mapping comment content) = comment
comment_of (sequence comment content) = comment
comment_of (scalar comment value) = comment
comment_of (alias comment value) = comment

-- A key has the comment that is known for its path, if one is.
abbrev pub IsLabel : Bytes → Node → Type 0
IsLabel path key = (c : Bytes) → entry path field_head_comments ≡ some c → comment_of key ≡ c

-- Every key of a tree below the path `prefix` has its comment: the path of a key is its name behind those of
-- the keys that it stands below, with dots between them.
abbrev mutual
  pub IsLabelled : Bytes → Node → Type 0
  IsLabelled prefix (document comment content) = AllLabelled prefix content
  IsLabelled prefix (mapping comment content) = PairsLabelled prefix content
  IsLabelled prefix (sequence comment content) = Unit
  IsLabelled prefix (scalar comment value) = Unit
  IsLabelled prefix (alias comment value) = Unit

  pub AllLabelled : Bytes → Nodes → Type 0
  AllLabelled prefix nil = Unit
  AllLabelled prefix (cons n rest) = IsLabelled prefix n × AllLabelled prefix rest

  pub PairsLabelled : Bytes → Nodes → Type 0
  PairsLabelled prefix nil = Unit
  PairsLabelled prefix (cons key nil) = Unit
  PairsLabelled prefix (cons key (cons value rest)) =
      IsLabel (dotted prefix (value_of key)) key
      × IsLabelled (dotted prefix (value_of key)) value
      × PairsLabelled prefix rest

value_of-with_comment : (c : Bytes) (n : Node) → value_of (with_comment c n) ≡ value_of n
value_of-with_comment c (document comment content) = refl
value_of-with_comment c (mapping comment content) = refl
value_of-with_comment c (sequence comment content) = refl
value_of-with_comment c (scalar comment value) = refl
value_of-with_comment c (alias comment value) = refl

comment_of-with_comment : (c : Bytes) (n : Node) → comment_of (with_comment c n) ≡ c
comment_of-with_comment c (document comment content) = refl
comment_of-with_comment c (mapping comment content) = refl
comment_of-with_comment c (sequence comment content) = refl
comment_of-with_comment c (scalar comment value) = refl
comment_of-with_comment c (alias comment value) = refl

annotate_key-kept :
    (path : Bytes) (key : Node)
    → (value_of (annotate_key path key) ≡ value_of key) × IsLabel path (annotate_key path key)
unfolding annotate_key
annotate_key-kept path key = go (entry path field_head_comments)
  where
    go :
        (found : Option Bytes)
        → let key' : Node = elim found [ none ↦ key | some c ↦ with_comment c key ] in
          (value_of key' ≡ value_of key) × ((c : Bytes) → found ≡ some c → comment_of key' ≡ c)
    go none = (refl, λ c h. absurd (ground arith))
    go (some d) = (value_of-with_comment d key, λ c h. comment_of-with_comment d key ∙ ground arith)

mutual
  unfolding annotate_comments

  pub annotate_comments-IsLabelled :
      (n : Node) (prefix : Bytes) → IsLabelled prefix (annotate_comments n prefix)
  annotate_comments-IsLabelled (document comment content) prefix =
      annotate_all-AllLabelled content prefix
  annotate_comments-IsLabelled (mapping comment content) prefix =
      annotate_pairs-PairsLabelled content prefix
  annotate_comments-IsLabelled (sequence comment content) prefix = tt
  annotate_comments-IsLabelled (scalar comment value) prefix = tt
  annotate_comments-IsLabelled (alias comment value) prefix = tt

  annotate_all-AllLabelled :
      (ns : Nodes) (prefix : Bytes) → AllLabelled prefix (annotate_all ns prefix)
  annotate_all-AllLabelled nil prefix = tt
  annotate_all-AllLabelled (cons n rest) prefix =
      (annotate_comments-IsLabelled n prefix, annotate_all-AllLabelled rest prefix)

  annotate_pairs-PairsLabelled :
      (ns : Nodes) (prefix : Bytes) → PairsLabelled prefix (annotate_pairs ns prefix)
  annotate_pairs-PairsLabelled nil prefix = tt
  annotate_pairs-PairsLabelled (cons key nil) prefix = tt
  annotate_pairs-PairsLabelled (cons key (cons value rest)) prefix =
      let path = dotted prefix (value_of key) in
      let (same, label) = annotate_key-kept path key in
      let at_path : dotted prefix (value_of (annotate_key path key)) ≡ path =
        ap (dotted prefix) same in
      (
        subst (λ p. IsLabel p (annotate_key path key)) (sym at_path) label,
        subst (λ p. IsLabelled p (annotate_comments value path)) (sym at_path)
            (annotate_comments-IsLabelled value path),
        annotate_pairs-PairsLabelled rest prefix,
      )

abbrev pub Events : Type 0
Events = List (Event Call Reply)

module _ (yaml : Yaml) (path : Bytes) (f : File) where
  -- What is written for the tree that yaml.v3 has made of the settings.
  pub record Annotated (root tree : Node) : Type 0 where
    pub encoded : yaml.encode f ≡ ok root
    pub only_comments : plain tree ≡ plain root
    pub labelled : IsLabelled [] tree

  -- How a save ends.
  pub data Saved : Option Failure → Events → Type 0 where
    not_encoded :
        (e : Failure) → yaml.encode f ≡ err e → Saved (some (wrap (codes "encode: ") e)) []
    not_marshalled :
        (root tree : Node) (e : Failure)
        → Annotated root tree
        → yaml.marshal tree ≡ err e
        → Saved (some (wrap (codes "marshal: ") e)) []
    one_write :
        (root tree : Node) (text_bytes : Bytes) (failed : Option Failure)
        → Annotated root tree
        → yaml.marshal tree ≡ ok text_bytes
        → comment_lines true config_header ≡ true
        → Saved
            (elim failed [
              | none ↦ none
              | some e ↦ some (wrap (codes "write " ++ path ++ codes ": ") e)
            ])
            ((write_file path (config_header ++ text_bytes), failed) ∷ [])

  marshalled-Saved :
      (root tree : Node)
      → Annotated root tree
      → (m : Result Bytes) → yaml.marshal tree ≡ m
      → Ends Saved [] (
          written yaml path (elim (wrap_err (codes "marshal: ") m) [
            | err e ↦ err e
            | ok text_bytes ↦ ok (config_header ++ text_bytes)
          ]))
  unfolding written
  marshalled-Saved root tree h (err e) same = not_marshalled root tree e h same
  marshalled-Saved root tree h (ok text_bytes) same =
      λ failed. one_write root tree text_bytes failed h same header_is_comment

  save-Ends : Ends Saved [] (save yaml path f)
  unfolding save rendered written
  save-Ends = go (yaml.encode f) refl
    where
      go :
          (r : Result Node)
          → yaml.encode f ≡ r
          → Ends Saved [] (
              written yaml path (elim (wrap_err (codes "encode: ") r) [
                | err e ↦ err e
                | ok root ↦
                    elim (wrap_err (codes "marshal: ") (yaml.marshal (annotate_comments root []))) [
                      | err e ↦ err e
                      | ok text_bytes ↦ ok (config_header ++ text_bytes)
                    ]
              ]))
      go (err e) same = not_encoded e same
      go (ok root) same =
          marshalled-Saved root (annotate_comments root [])
            (record {
              encoded = same;
              only_comments = plain-annotate_comments root [];
              labelled = annotate_comments-IsLabelled root [];
            })
            (yaml.marshal (annotate_comments root [])) refl

  -- In every world, Save either writes nothing and returns the error of the YAML library, or writes once, to
  -- the file it was given, and returns what became of the write. The bytes are a header, each of whose lines
  -- is a comment or empty, and behind it what the library makes of a tree that differs from that of the
  -- settings in comments only, and in which every key whose path is known has the comment for this path.
  pub save-Saved :
      (w : World Call Reply) → let (failed, t) = run w [] (save yaml path f) in Saved failed t
  save-Saved w = run-Ends Saved w [] (save yaml path f) save-Ends
