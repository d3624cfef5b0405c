-- ===== src/Commands/Dispatcher/Body.antt =====
-- What Handle does once it has won the claim: it fails the command at once, or it starts one task of
-- Proxmox and goes on from there. The properties of Handle are proved over these two cases.
use proxmoxvue_agent.Base.{
  ◌≡◌, refl, true, not, ◌||◌, ◌++◌, arith, Bytes, codes, is_empty, if-split,
}
use proxmoxvue_agent.Base.Program.{call}
use proxmoxvue_agent.Base.Int.{is_positive}
use proxmoxvue_agent.Base.Failure.{message, Result, ok, err}
use proxmoxvue_agent.Crypto.{Hpke}
use proxmoxvue_agent.Commands.Route.{Dispatcher, Route, send, route, reject}
use proxmoxvue_agent.Commands.Calls.{Command, Handler, ActorCall, actor}
use proxmoxvue_agent.Commands.Dispatcher.{claimed, validated, dispatch, decoded, fail, after_action}
use proxmoxvue_agent.Commands.Payload.{CommandPayload, decode_payload, lacks_guest, is_guest_kind}
use proxmoxvue_agent.Proxmox.Action.{is_known}
use proxmoxvue_agent.Commands.Route.Shape.{
  IsSound, IsFor, IsGuest, route-IsSound, route-IsFor, OnSend,
}

module _ (hpke : Hpke) (d : Dispatcher) (cmd : Command) where
  -- The task is one that the command asks for, on a payload that was read and checked.
  pub record IsAsked (p : CommandPayload) (c : ActorCall) : Type 0 where
    pub read : decode_payload cmd.payload ≡ ok p
    pub known : is_known cmd.kind ≡ true
    pub sound : IsSound c
    pub for_command : IsFor cmd.kind p c

  pub data Body : Handler → Type 0 where
    failing : (m : Bytes) → Body (fail cmd.id m)
    acting :
        (p : CommandPayload) (c : ActorCall)
        → IsAsked p c
        → Body (call (actor c) (after_action cmd.id p.node d.action_timeout))

  dispatch-Body :
      (p : CommandPayload) (r : Route)
      → decode_payload cmd.payload ≡ ok p
      → is_known cmd.kind ≡ true
      → OnSend IsSound r
      → OnSend (IsFor cmd.kind p) r
      → Body (dispatch d cmd.id p r)
  unfolding dispatch
  dispatch-Body p (reject m) read known s f = failing m
  dispatch-Body p (send c) read known s f =
      acting p c (record { read = read; known = known; sound = s; for_command = f })

  validated-Body :
      (p : CommandPayload)
      → decode_payload cmd.payload ≡ ok p
      → is_known cmd.kind ≡ true
      → Body (validated hpke d cmd p)
  unfolding validated lacks_guest
  validated-Body p read known =
      if-split Body (not (is_guest_kind p.guest_kind))
        (λ bad. failing (codes "unknown guest_kind: " ++ p.guest_kind))
        λ kind.
          if-split Body (is_empty p.node || not (is_positive p.vmid))
            (λ bad. failing (codes "missing node or vmid"))
            λ target.
              let guest : IsGuest p.guest_kind p.node p.vmid =
                (ground arith, ground arith, ground arith) in
              dispatch-Body p (route hpke d cmd.kind p) read known
                (route-IsSound hpke d cmd.kind p guest) (route-IsFor hpke d cmd.kind p)

  decoded-Body :
      (r : Result CommandPayload)
      → decode_payload cmd.payload ≡ r
      → is_known cmd.kind ≡ true
      → Body (decoded hpke d cmd r)
  unfolding decoded
  decoded-Body (err e) read known = failing (codes "bad payload: " ++ message e)
  decoded-Body (ok p) read known = validated-Body p read known

  pub claimed-Body : Body (claimed hpke d cmd)
  unfolding claimed
  claimed-Body =
      if-split Body (not (is_known cmd.kind)) (λ bad. failing (codes "unknown kind: " ++ cmd.kind))
        λ known. decoded-Body (decode_payload cmd.payload) refl (ground arith)
