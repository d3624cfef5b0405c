-- ===== src/Commands/Whitelist/Reach/Node.antt =====
-- That the whitelist does not look at the node.
use proxmoxvue_agent.Base.{
  ◌≡◌, refl, sym, ap, Bool, true, false, [], ◌∷◌, ◌++◌, arith, All, Bytes, codes,
}
use proxmoxvue_agent.Pattern.{not_slash}
use proxmoxvue_agent.Commands.Whitelist.{endpoint_allowed}
use proxmoxvue_agent.Commands.Whitelist.Readable.{
  IsSegment, join, at_node, Readable, of_cluster, of_node, of_task, of_guest, of_file_systems,
  of_storage,
}
use proxmoxvue_agent.Commands.Whitelist.Reach.{endpoint_allowed_iff}

cancel : (p a b : Bytes) → p ++ a ≡ p ++ b → a ≡ b
cancel [] a b h = h
cancel (c ∷ p) a b h = ground (arith, cancel p a b)

-- A text is cut at its first slash in one way.
join-rest :
    (a b rest rest' : Bytes)
    → All (λ c. not_slash c ≡ true) a
    → All (λ c. not_slash c ≡ true) b
    → join a rest ≡ join b rest'
    → rest ≡ rest'
join-rest [] [] rest rest' plain plain' h = ground arith
join-rest [] (d ∷ b) rest rest' plain plain' h = absurd (ground arith)
join-rest (c ∷ a) [] rest rest' plain plain' h = absurd (ground arith)
join-rest (c ∷ a) (d ∷ b) rest rest' plain plain' h =
    join-rest a b rest rest' plain.1 plain'.1 (ground arith)

module _ (node other rest : Bytes) (seg : IsSegment node) (seg' : IsSegment other) where
  rest_of :
      (found below : Bytes)
      → IsSegment found
      → at_node node rest ≡ at_node found below
      → rest ≡ below
  rest_of found below seg'' e =
      join-rest node found rest below seg.1 seg''.1
        (cancel (codes "/api2/json/nodes/") (join node rest) (join found below) e)

  moved :
      (found below : Bytes)
      → IsSegment found
      → at_node node rest ≡ at_node found below
      → at_node other rest ≡ at_node other below
  moved found below seg'' e = ap (at_node other) (rest_of found below seg'' e)

  other-Readable : Readable (at_node node rest) → Readable (at_node other rest)
  other-Readable (of_cluster leaf m e) = absurd (ground arith)
  other-Readable (of_node found leaf s m e) = of_node other leaf seg' m (moved found _ s e)
  other-Readable (of_task found task leaf s t m e) =
      of_task other task leaf seg' t m (moved found _ s e)
  other-Readable (of_guest found kind number leaf s is_kind digits m e) =
      of_guest other kind number leaf seg' is_kind digits m (moved found _ s e)
  other-Readable (of_file_systems found number s digits e) =
      of_file_systems other number seg' digits (moved found _ s e)
  other-Readable (of_storage found storage s t e) =
      of_storage other storage seg' t (moved found _ s e)

  other_allowed :
      endpoint_allowed (at_node node rest) ≡ true → endpoint_allowed (at_node other rest) ≡ true
  other_allowed h = (endpoint_allowed_iff _).1 (other-Readable ((endpoint_allowed_iff _).0 h))

-- The whitelist does not look at the node: below /api2/json/nodes/ a path is let through with one text in
-- the place of the node exactly if it is with another, where both are not empty and have no slash. So "..",
-- or a text with '?' or '#', is as good as the name of a node.
pub endpoint_allowed_any_node :
    (node other rest : Bytes)
    → IsSegment node
    → IsSegment other
    → endpoint_allowed (at_node node rest) ≡ endpoint_allowed (at_node other rest)
endpoint_allowed_any_node node other rest seg seg' =
    same (endpoint_allowed (at_node node rest)) (endpoint_allowed (at_node other rest))
      (other_allowed node other rest seg seg') (other_allowed other node rest seg' seg)
  where
    same : (a b : Bool) → (a ≡ true → b ≡ true) → (b ≡ true → a ≡ true) → a ≡ b
    same true b there back = sym (there refl)
    same false true there back = back refl
    same false false there back = refl
