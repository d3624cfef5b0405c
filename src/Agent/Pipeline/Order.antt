-- ===== src/Agent/Pipeline/Order.antt =====
-- In which order a command is handled and a snapshot pushed.
use proxmoxvue_agent.Base.{
  ℕ, ◌≡◌, refl, true, Option, none, some, [], ◌∷◌, arith, Bytes, is_empty, if-split,
}
use proxmoxvue_agent.Base.Program.{World, run}
use proxmoxvue_agent.Base.Failure.{Failure, Result, ok, err}
use proxmoxvue_agent.Crypto.{Hpke}
use proxmoxvue_agent.Base.Compose.{none_yet, lift-Ends, Refines}
use proxmoxvue_agent.Base.Ledger.{Ends, Ends-bind, run-Ends, spent}
use proxmoxvue_agent.Proxmox.Tasks.Wait.{pauses}
use proxmoxvue_agent.Runtime.ClusterWait.Fuel.{
  Settled, Settled-spent, wait_for_cluster_state_match-Settled,
}
use proxmoxvue_agent.Json.{RawMessage}
use proxmoxvue_agent.Commands.Calls.{Command}
use proxmoxvue_agent.Commands.Route.{Dispatcher}
use proxmoxvue_agent.Commands.Dispatcher.Outcome.{Story}
use proxmoxvue_agent.Supabase.Commands.{push_snapshot}
use proxmoxvue_agent.Supabase.Commands.Snapshot.{snapshot_request, push_snapshot-Ends}
use proxmoxvue_agent.Supabase.Rest.Patch.{Changed, Changed-none}
use proxmoxvue_agent.Supabase.Session.{Session}
use proxmoxvue_agent.Supabase.Session.Refresh
use proxmoxvue_agent.Proxmox.Tasks.{send}
use proxmoxvue_agent.Proxmox.Tasks.Wait
use proxmoxvue_agent.Proxmox.Client.{Exchange}
use proxmoxvue_agent.Proxmox.Cluster.{resources_request, cluster_resources}
use proxmoxvue_agent.Runtime.ClusterWait.{Outcome, wait_for_cluster_state_match}
use proxmoxvue_agent.Agent.{
  Call, Reply, supabase, proxmox, write_heartbeat, supabase_reply, proxmox_reply, failure_of,
  handle_on_wire,
}
use proxmoxvue_agent.Agent.Refinement.{
  Events, ForSupabase, ForProxmox, Exhausted, Does, handle_on_wire-Ends,
}
use proxmoxvue_agent.Agent.Pipeline.{
  payload_of, touch_heartbeat, after_resources, push_once, Progress, not_handled, push_tried,
  after_match, after_handle, handle_command,
}

module _ (stamp : ℕ → Bytes) (show : ℕ → Bytes) (cluster_id heartbeat_path : Bytes) where
  -- The sign of life, which an empty path switches off.
  pub data Touched (base : Events) : Events → Type 0 where
    no_file : is_empty heartbeat_path ≡ true → Touched base base
    touched : (r : Option Failure) → Touched base ((write_heartbeat heartbeat_path, r) ∷ base)

  -- What a push does behind the events of `base`.
  pub data Pushed (base : Events) (s : Session)
      : Option (Option Failure × Session) → Events → Type 0 where
    not_read :
        {u : Events} (x : Exchange) (e : Failure)
        → Touched base u
        → cluster_resources x ≡ err e
        → Pushed base s (some (some e, s)) ((proxmox (send resources_request), x) ∷ u)
    not_pushed :
        {u u' : Events} {s' : Session} {t : Refresh.Events} (x : Exchange) (e : Failure)
        → Touched base u
        → ForSupabase ((proxmox (send resources_request), x) ∷ u) t u'
        → Pushed base s (some (some e, s')) u'
    -- The row that was stored has the very list that the cluster gave.
    pushed :
        {u u' : Events} {s' : Session} {t : Refresh.Events} (x : Exchange) (resources : RawMessage)
        → Touched base u
        → cluster_resources x ≡ ok resources
        → ForSupabase ((proxmox (send resources_request), x) ∷ u) t u'
        → Changed true (snapshot_request cluster_id (payload_of resources)) (some (ok tt, s')) t
        → Pushed base s (some (none, s')) u'

  stored-Pushed :
      (base u : Events) (s : Session) (x : Exchange) (resources : RawMessage)
      → Touched base u
      → cluster_resources x ≡ ok resources
      → (out : Option (Result {0} Unit × Session)) (u' : Events)
      → ((t : Refresh.Events) × ForSupabase ((proxmox (send resources_request), x) ∷ u) t u'
          × Changed true (snapshot_request cluster_id (payload_of resources)) out t)
      → Pushed base s (elim out [ none ↦ none | some (r, s') ↦ some (failure_of r, s') ]) u'
  stored-Pushed base u s x resources alive same none u' (t, st, h) =
      let panics = Changed-none true (snapshot_request cluster_id (payload_of resources)) h in
      absurd (ground arith)
  stored-Pushed base u s x resources alive same (some (err e, s')) u' (t, st, h) =
      not_pushed x e alive st
  stored-Pushed base u s x resources alive same (some (ok done, s')) u' (t, st, h) =
      pushed x resources alive same st h

  after_resources-Pushed :
      (base u : Events) (s : Session) (x : Exchange) (r : Result RawMessage)
      → Touched base u
      → cluster_resources x ≡ r
      → Ends
          (Pushed base s)
          ((proxmox (send resources_request), x) ∷ u)
          (after_resources stamp show cluster_id s r)
  unfolding after_resources
  after_resources-Pushed base u s x (err e) alive same = not_read x e alive same
  after_resources-Pushed base u s x (ok resources) alive same =
      let request = snapshot_request cluster_id (payload_of resources) in
      let u' : Events = (proxmox (send resources_request), x) ∷ u in
      Ends-bind
        (λ out u''. (t : Refresh.Events) × ForSupabase u' t u'' × Changed true request out t)
        (Pushed base s) u' _ _
        (lift-Ends supabase supabase_reply (Changed true request) u' [] u'
          (push_snapshot stamp true cluster_id (payload_of resources) s) none_yet
          (push_snapshot-Ends stamp true cluster_id (payload_of resources) s))
        (stored-Pushed base u s x resources alive same)

  push_once-Pushed :
      (base : Events) (s : Session)
      → Ends (Pushed base s) base (push_once stamp show cluster_id heartbeat_path s)
  unfolding push_once touch_heartbeat
  push_once-Pushed base s =
      Ends-bind (λ done u. Touched base u) (Pushed base s) base (touch_heartbeat heartbeat_path) _
        alive
        (λ done u touches x. after_resources-Pushed base u s x (cluster_resources x) touches refl)
    where
      alive : Ends (λ done u. Touched base u) base (touch_heartbeat heartbeat_path)
      alive =
          if-split (Ends (λ done u. Touched base u) base) (is_empty heartbeat_path) no_file
            (λ named r. touched r)

  module _ (hpke : Hpke) (d : Dispatcher) (cmd : Command) (fuel : ℕ) (s : Session) where
    abbrev OnWire : Option (Option Failure × Session) → Events → Type 0
    OnWire out u =
        Refines (Exhausted stamp show fuel) (Does stamp show fuel) (Story hpke d cmd) s [] out u

    -- How the handling of a command goes on behind the dispatcher.
    pub data Handled
        : Option (Progress stamp show cluster_id heartbeat_path) → Events → Type 0 where
      out_of_fuel : {u : Events} → OnWire none u → Handled none u
      -- The wait for the cluster has paused as often as it has fuel.
      no_match :
          {u u' : Events} {s' : Session} {t : Wait.Events}
          → OnWire (some (none, s')) u
          → ForProxmox u t u'
          → Settled cmd fuel none t
          → spent pauses t ≡ fuel
          → Handled none u'
      stopped :
          {u : Events} {s' : Session} (e : Failure)
          → OnWire (some (some e, s')) u
          → Handled (some (not_handled e s')) u
      snapshot_tried :
          {u u' u'' : Events} {s' s'' : Session} {t : Wait.Events} (o : Outcome)
          (r : Option Failure)
          → OnWire (some (none, s')) u
          → ForProxmox u t u'
          → Settled cmd fuel (some o) t
          → Pushed u' s' (some (r, s'')) u''
          → Handled (some (push_tried o r s'')) u''

    tried :
        (base : Events) (s' : Session) (o : Outcome)
        → ((out : Option (Option Failure × Session)) (u : Events)
            → Pushed base s' out u
            → Handled (elim out [ none ↦ none | some (r, s'') ↦ some (push_tried o r s'') ]) u)
        → Ends Handled base (after_match stamp show cluster_id heartbeat_path s' (some o))
    unfolding after_match
    tried base s' o go =
        Ends-bind (Pushed base s') Handled base (push_once stamp show cluster_id heartbeat_path s')
          _ (push_once-Pushed base s') go

    waited :
        (u : Events) (s' : Session)
        → OnWire (some (none, s')) u
        → (o : Option Outcome) (u' : Events)
        → ((t : Wait.Events) × ForProxmox u t u' × Settled cmd fuel o t)
        → Ends Handled u' (after_match stamp show cluster_id heartbeat_path s' o)
    unfolding after_match
    waited u s' before none u' (t, st, wait) =
        no_match before st wait (Settled-spent cmd fuel wait refl)
    waited u s' before (some o) u' (t, st, wait) = tried u' s' o final
      where
        final :
            (out : Option (Option Failure × Session)) (u'' : Events)
            → Pushed u' s' out u''
            → Handled (elim out [ none ↦ none | some (r, s'') ↦ some (push_tried o r s'') ]) u''
        final none u'' p = elim p [ ]
        final (some (r, s'')) u'' p = snapshot_tried o r before st wait p

    after_handle-Handled :
        (out : Option (Option Failure × Session)) (u : Events)
        → OnWire out u
        → Ends Handled u (after_handle stamp show cluster_id heartbeat_path cmd fuel out)
    unfolding after_handle
    after_handle-Handled none u before = out_of_fuel before
    after_handle-Handled (some (some e, s')) u before = stopped e before
    after_handle-Handled (some (none, s')) u before =
        Ends-bind (λ o u'. (t : Wait.Events) × ForProxmox u t u' × Settled cmd fuel o t) Handled u _
          _
          (lift-Ends proxmox proxmox_reply (Settled cmd fuel) u [] u
            (wait_for_cluster_state_match cmd fuel) none_yet
            (wait_for_cluster_state_match-Settled cmd fuel))
          (waited u s' before)

    -- In every world, a command that came in is first handled by the dispatcher, as its specification
    -- tells; where that returns an error nothing follows, and otherwise the wait for the cluster and one
    -- push of a snapshot, whatever the wait came to. The wait is skipped only where the kind leads to no
    -- state that is known or the payload names no guest; otherwise it polls the resources of the cluster,
    -- with a pause behind each answer that does not show the guest in the expected state, and ends with an
    -- answer that does, with the clock at the deadline, or with a pause that was cancelled. In the push the
    -- heartbeat file is touched if it has a path, the
    -- resources of the cluster are read behind the wait, and the row that is stored has the list that
    -- this answer gave. A push has no error only if the row's POST was answered with a status of 2xx. Only
    -- a run that is out of fuel for one of the waits does not get there.
    pub handle_command-Handled :
        (w : World Call Reply)
        → let (out, u) =
            run w [] (handle_command stamp show cluster_id heartbeat_path hpke d cmd fuel s) in
          Handled out u
    unfolding handle_command
    handle_command-Handled w =
        run-Ends Handled w []
          (handle_command stamp show cluster_id heartbeat_path hpke d cmd fuel s)
          (Ends-bind OnWire Handled [] (handle_on_wire stamp show fuel hpke d cmd s)
            (after_handle stamp show cluster_id heartbeat_path cmd fuel)
            (handle_on_wire-Ends stamp show fuel hpke d cmd s) after_handle-Handled)
