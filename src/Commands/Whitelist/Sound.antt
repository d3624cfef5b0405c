-- ===== src/Commands/Whitelist/Sound.antt =====
-- That each pattern of the whitelist spells only what is meant.
use proxmoxvue_agent.Base.{
  ◌≤◌, ◌≡◌, refl, Bool, true, [], ◌∷◌, ◌++◌, length, All, Bytes, codes, ℕ, append-nil,
}
use proxmoxvue_agent.Commands.Whitelist.{read_endpoint_whitelist, guest, segment, nodes}
use proxmoxvue_agent.Pattern.{literal, not_slash, some_of, is_digit}
use proxmoxvue_agent.Pattern.Meaning.{Matches}
use mathlib.Core.List.{Memᴰ}
use proxmoxvue_agent.Commands.Whitelist.Listed.{at, mem_at}
use proxmoxvue_agent.Commands.Whitelist.Readable.{
  IsSegment, of_cluster_read, of_node_read, of_task_read, of_guest_read, Readable, of_cluster,
  of_node, of_task, of_guest, of_file_systems, of_storage,
}

module _ (path : Bytes) where
  cluster-Readable :
      (leaf : Bytes)
      → Memᴰ leaf of_cluster_read
      → Matches (literal (codes "/api2/json/cluster/" ++ leaf) ∷ []) path
      → Readable path
  cluster-Readable leaf m (a, b, e, ea, eb) = of_cluster leaf m (rw (e, ea, eb, append-nil) refl)

  node-Readable :
      (leaf : Bytes)
      → Memᴰ leaf of_node_read
      → Matches (nodes ∷ segment ∷ literal (codes "/" ++ leaf) ∷ []) path
      → Readable path
  node-Readable leaf m (a, b, e, ea, (node, c, ec, seg, (d, f, ed, el, ef))) =
      of_node node leaf seg m (rw (e, ea, ec, ed, el, ef, append-nil) refl)

  task-Readable :
      (leaf : Bytes)
      → Memᴰ leaf of_task_read
      → Matches
          (nodes ∷ segment ∷ literal (codes "/tasks/") ∷ segment ∷ literal (codes "/" ++ leaf) ∷ [])
          path
      → Readable path
  task-Readable leaf m
        (
          a,
          b,
          e,
          ea,
          (node, c, ec, seg, (d, f, ed, el, (task, g, eg, seg', (h, k, eh, el', ek)))),
        ) =
      of_task node task leaf seg seg' m (rw (e, ea, ec, ed, el, eg, eh, el', ek, append-nil) refl)

  guest-Readable :
      (leaf : Bytes)
      → Memᴰ leaf of_guest_read
      → Matches (guest (literal (codes "/" ++ leaf) ∷ [])) path
      → Readable path
  guest-Readable leaf m
        (
          a,
          b,
          e,
          ea,
          (
            node,
            c,
            ec,
            seg,
            (
              d,
              f,
              ed,
              el,
              (
                kind,
                g,
                eg,
                is_kind,
                (h, k, eh, el', (number, n, en, digits, (o, p, eo, el'', ep))),
              ),
            ),
          ),
        ) =
      of_guest node kind number leaf seg is_kind digits m
        (rw (e, ea, ec, ed, el, eg, eh, el', en, eo, el'', ep, append-nil) refl)

  pair-Readable :
      (middle last : Bytes) (class : ℕ → Bool)
      → Matches (nodes ∷ segment ∷ literal middle ∷ some_of class ∷ literal last ∷ []) path
      → (node : Bytes) × (s : Bytes) × IsSegment node
        × (1 ≤ length s)
        × All (λ c. class c ≡ true) s
        × (path ≡ codes "/api2/json/nodes/" ++ (node ++ (middle ++ (s ++ last))))
  pair-Readable middle last class
        (a, b, e, ea, (node, c, ec, seg, (d, f, ed, el, (s, g, eg, some_s, (h, k, eh, el', ek))))) =
      (node, s, seg, some_s.0, some_s.1, rw (e, ea, ec, ed, el, eg, eh, el', ek, append-nil) refl)

  pub whitelist-Readable : All (λ re. Matches re path → Readable path) read_endpoint_whitelist
  unfolding read_endpoint_whitelist at
  whitelist-Readable = (
    cluster-Readable (codes "resources") (mem_at 0 of_cluster_read refl),
    (
      cluster-Readable (codes "status") (mem_at 1 of_cluster_read refl),
      (
        cluster-Readable (codes "tasks") (mem_at 2 of_cluster_read refl),
        (
          node-Readable (codes "status") (mem_at 0 of_node_read refl),
          (
            node-Readable (codes "network") (mem_at 1 of_node_read refl),
            (
              node-Readable (codes "firewall/rules") (mem_at 2 of_node_read refl),
              (
                node-Readable (codes "tasks") (mem_at 3 of_node_read refl),
                (
                  task-Readable (codes "status") (mem_at 0 of_task_read refl),
                  (
                    task-Readable (codes "log") (mem_at 1 of_task_read refl),
                    (
                      guest-Readable (codes "config") (mem_at 0 of_guest_read refl),
                      (
                        guest-Readable (codes "snapshot") (mem_at 1 of_guest_read refl),
                        (
                          guest-Readable (codes "feature") (mem_at 2 of_guest_read refl),
                          (
                            (λ m.
                                let (node, number, seg, long, digits, e) =
                                  pair-Readable (codes "/qemu/") (codes "/agent/get-fsinfo")
                                    is_digit m in
                                of_file_systems node number seg (long, digits) e),
                            (
                              (λ m.
                                  let (node, storage, seg, long, plain, e) =
                                    pair-Readable (codes "/storage/") (codes "/content") not_slash
                                      m in
                                  of_storage node storage seg (long, plain) e),
                              tt,
                            ),
                          ),
                        ),
                      ),
                    ),
                  ),
                ),
              ),
            ),
          ),
        ),
      ),
    ),
  )
