-- ===== src/Supabase/Commands/Snapshot.antt =====
-- When a snapshot counts as pushed.
use proxmoxvue_agent.Base.{ℕ, refl, Bool, Option, none, some, [], Bytes, codes}
use proxmoxvue_agent.Base.Program.{ret}
use proxmoxvue_agent.Base.Failure.{wrap, Result}
use proxmoxvue_agent.Json.{Json, member, end, string, object}
use proxmoxvue_agent.Base.Ledger.{Ends, Ends-bind}
use proxmoxvue_agent.Supabase.Session.{Session, Request}
use proxmoxvue_agent.Supabase.Session.Refresh.{Events}
use proxmoxvue_agent.Supabase.Rest.{done, post_row}
use proxmoxvue_agent.Supabase.Rest.Patch.{
  Changed, changed, change_failed, panicked, post_request, post_row-Ends,
}
use proxmoxvue_agent.Supabase.Commands.{push_snapshot, wrapped}

abbrev pub snapshot_request : Bytes → Json → Request
snapshot_request cluster_id payload = post_request (codes "/status_snapshots") (
    object (member (codes "cluster_id") (string cluster_id) (member (codes "payload") payload end)))

module _ (persists : Bool) (request : Request) where
  wrapped-Changed :
      (prefix : Bytes) (out : Option (Result {0} Unit × Session)) (t : Events)
      → Changed persists request out t
      → Ends
          (Changed persists request)
          t
          (elim out [ none ↦ ret none | some (r, s') ↦ done (wrapped prefix r) s' ])
  unfolding wrapped
  wrapped-Changed prefix out t (panicked panics) = panicked panics
  wrapped-Changed prefix out t (change_failed e) = change_failed (wrap prefix e)
  wrapped-Changed prefix out t (changed few same fine) = changed few same fine

pub push_snapshot-Ends :
    (stamp : ℕ → Bytes) (persists : Bool) (cluster_id : Bytes) (payload : Json) (s : Session)
    → Ends
        (Changed persists (snapshot_request cluster_id payload))
        []
        (push_snapshot stamp persists cluster_id payload s)
unfolding push_snapshot
push_snapshot-Ends stamp persists cluster_id payload s =
    let request = snapshot_request cluster_id payload in
    Ends-bind (Changed persists request) (Changed persists request) []
      (post_row persists (codes "/status_snapshots") _ s) _
      (post_row-Ends persists (codes "/status_snapshots") _ s [] (refl, refl))
      (wrapped-Changed persists request (codes "push snapshot: "))
