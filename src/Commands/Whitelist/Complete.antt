-- ===== src/Commands/Whitelist/Complete.antt =====
-- That the patterns of the whitelist spell all that is meant.
use proxmoxvue_agent.Base.{
  ◌≤◌, ◌≡◌, refl, Bool, true, List, [], ◌∷◌, ◌++◌, length, All, Bytes, codes, ℕ, append-nil,
}
use proxmoxvue_agent.Commands.Whitelist.{read_endpoint_whitelist, guest, segment, nodes}
use proxmoxvue_agent.Pattern.{Piece, literal, not_slash, some_of, is_digit}
use proxmoxvue_agent.Pattern.Meaning.{Matches}
use mathlib.Core.List.{Memᴰ}
use proxmoxvue_agent.Commands.Whitelist.Listed.{All-mem, at, mem_at}
use proxmoxvue_agent.Commands.Whitelist.Readable.{
  IsSegment, of_cluster_read, of_node_read, of_task_read, of_guest_read, join, Readable, of_cluster,
  of_node, of_task, of_guest, of_file_systems, of_storage,
}

module _ (path : Bytes) where
  pair-Matches :
      (middle last : Bytes) (class : ℕ → Bool) (node s : Bytes)
      → IsSegment node
      → (1 ≤ length s) × All (λ c. class c ≡ true) s
      → path ≡ codes "/api2/json/nodes/" ++ (node ++ (middle ++ (s ++ last)))
      → Matches (nodes ∷ segment ∷ literal middle ∷ some_of class ∷ literal last ∷ []) path
  pair-Matches middle last class node s seg some_s e = (
    codes "/api2/json/nodes/",
    node ++ (middle ++ (s ++ last)),
    e,
    refl,
    (
      node,
      middle ++ (s ++ last),
      refl,
      seg,
      (
        middle,
        s ++ last,
        refl,
        refl,
        (s, last, refl, some_s, (last, [], rw append-nil refl, refl, refl)),
      ),
    ),
  )

  pub Readable-Matches :
      Readable path → (re : List Piece) × Memᴰ re read_endpoint_whitelist × Matches re path
  unfolding read_endpoint_whitelist at
  Readable-Matches (of_cluster leaf m e) = (
    literal (codes "/api2/json/cluster/" ++ leaf) ∷ [],
    All-mem
        (λ leaf. Memᴰ (literal (codes "/api2/json/cluster/" ++ leaf) ∷ []) read_endpoint_whitelist)
        of_cluster_read
        (
          mem_at 0 read_endpoint_whitelist refl,
          (mem_at 1 read_endpoint_whitelist refl, (mem_at 2 read_endpoint_whitelist refl, tt)),
        )
        m,
    (codes "/api2/json/cluster/" ++ leaf, [], rw (e, append-nil) refl, refl, refl),
  )
  Readable-Matches (of_node node leaf seg m e) = (
    nodes ∷ segment ∷ literal (codes "/" ++ leaf) ∷ [],
    All-mem
        (λ leaf. Memᴰ (nodes ∷ segment ∷ literal (codes "/" ++ leaf) ∷ []) read_endpoint_whitelist)
        of_node_read
        (
          mem_at 3 read_endpoint_whitelist refl,
          (
            mem_at 4 read_endpoint_whitelist refl,
            (mem_at 5 read_endpoint_whitelist refl, (mem_at 6 read_endpoint_whitelist refl, tt)),
          ),
        )
        m,
    (
      codes "/api2/json/nodes/",
      join node leaf,
      e,
      refl,
      (node, codes "/" ++ leaf, refl, seg, (codes "/" ++ leaf, [], rw append-nil refl, refl, refl)),
    ),
  )
  Readable-Matches (of_task node task leaf seg seg' m e) = (
    nodes ∷ segment ∷ literal (codes "/tasks/") ∷ segment ∷ literal (codes "/" ++ leaf) ∷ [],
    All-mem
        (λ leaf.
          Memᴰ
            (nodes
              ∷ segment
              ∷ literal (codes "/tasks/")
              ∷ segment
              ∷ literal (codes "/" ++ leaf)
              ∷ [])
            read_endpoint_whitelist)
        of_task_read
        (mem_at 7 read_endpoint_whitelist refl, (mem_at 8 read_endpoint_whitelist refl, tt)) m,
    (
      codes "/api2/json/nodes/",
      join node (join (codes "tasks") (join task leaf)),
      e,
      refl,
      (
        node,
        codes "/" ++ join (codes "tasks") (join task leaf),
        refl,
        seg,
        (
          codes "/tasks/",
          join task leaf,
          refl,
          refl,
          (
            task,
            codes "/" ++ leaf,
            refl,
            seg',
            (codes "/" ++ leaf, [], rw append-nil refl, refl, refl),
          ),
        ),
      ),
    ),
  )
  Readable-Matches (of_guest node kind number leaf seg is_kind digits m e) = (
    guest (literal (codes "/" ++ leaf) ∷ []),
    All-mem (λ leaf. Memᴰ (guest (literal (codes "/" ++ leaf) ∷ [])) read_endpoint_whitelist)
        of_guest_read
        (
          mem_at 9 read_endpoint_whitelist refl,
          (mem_at 10 read_endpoint_whitelist refl, (mem_at 11 read_endpoint_whitelist refl, tt)),
        )
        m,
    (
      codes "/api2/json/nodes/",
      join node (join kind (join number leaf)),
      e,
      refl,
      (
        node,
        codes "/" ++ join kind (join number leaf),
        refl,
        seg,
        (
          codes "/",
          join kind (join number leaf),
          refl,
          refl,
          (
            kind,
            codes "/" ++ join number leaf,
            refl,
            is_kind,
            (
              codes "/",
              join number leaf,
              refl,
              refl,
              (
                number,
                codes "/" ++ leaf,
                refl,
                digits,
                (codes "/" ++ leaf, [], rw append-nil refl, refl, refl),
              ),
            ),
          ),
        ),
      ),
    ),
  )
  Readable-Matches (of_file_systems node number seg digits e) = (
    _,
    mem_at 12 read_endpoint_whitelist refl,
    pair-Matches (codes "/qemu/") (codes "/agent/get-fsinfo") is_digit node number seg digits e,
  )
  Readable-Matches (of_storage node storage seg seg' e) = (
    _,
    mem_at 13 read_endpoint_whitelist refl,
    pair-Matches (codes "/storage/") (codes "/content") not_slash node storage seg seg' e,
  )
