-- ===== src/Commands/ReadDispatcher/Outcome.antt =====
-- The specification of ReadDispatcher.Handle: the stories that a read command can have.
use proxmoxvue_agent.Base.{
  ℕ, ◌≡◌, refl, sym, ◌⊎◌, inl, inr, Bool, true, false, not, Option, none, some, List, [], ◌∷◌, ◌++◌,
  arith, ltb, ◌==◌, ==_iff, Bytes, codes, if-split,
}
use proxmoxvue_agent.Base.Program.{Event, World, run}
use proxmoxvue_agent.Base.Int.{format_int}
use proxmoxvue_agent.Base.Failure.{Failure, wrap, message, Result, ok, err}
use proxmoxvue_agent.Commands.ReadDispatcher.{
  ReadCommand, after_claim, handle, now, Call, claim_read_command, after_get, fetch,
  after_expired_claim, claimed, complete_read_command, handle_live, Reply, handle_expired, get_raw,
  read_timeout,
}
use proxmoxvue_agent.Base.Ledger.{Ends, run-Ends}
use proxmoxvue_agent.Commands.Whitelist.{endpoint_allowed}
use proxmoxvue_agent.Commands.BuildPath.{build_path}

module _ (float_text : Bytes → Option Bytes) (cmd : ReadCommand) where
  abbrev Events : Type 0
  Events = List (Event Call Reply)

  -- The look at the clock, which a row with no deadline is spared.
  pub data Clock (late : Bool) : Events → Type 0 where
    no_deadline : cmd.expires_at ≡ 0 → late ≡ false → Clock late []
    read_clock :
        (time : ℕ)
        → (cmd.expires_at == 0) ≡ false
        → late ≡ ltb cmd.expires_at time
        → Clock late ((now, time) ∷ [])

  pub data Story : Option Failure → Events → Type 0 where
    claim_failed :
        {past : Events} (e : Failure)
        → Clock false past
        → Story
            (some (wrap (codes "claim read_command " ++ format_int cmd.id ++ codes ": ") e))
            ((claim_read_command cmd.id, err e) ∷ past)
    late_claim_failed :
        {past : Events} (e : Failure)
        → Clock true past
        → Story none ((claim_read_command cmd.id, err e) ∷ past)
    claim_lost :
        {late : Bool} {past : Events}
        → Clock late past
        → Story none ((claim_read_command cmd.id, ok false) ∷ past)
    expired :
        {past : Events} (r : Option Failure)
        → Clock true past
        → Story r (
            (complete_read_command cmd.id (codes "expired") none (codes "ttl"), r)
            ∷ (claim_read_command cmd.id, ok true)
            ∷ past)
    not_allowed :
        {past : Events} (r : Option Failure)
        → endpoint_allowed cmd.endpoint ≡ false
        → Clock false past
        → Story r (
            (
              complete_read_command cmd.id
                  (codes "failed")
                  none
                  (codes "endpoint not allowed: " ++ cmd.endpoint),
              r,
            )
            ∷ (claim_read_command cmd.id, ok true)
            ∷ past)
    bad_params :
        {past : Events} (e : Failure) (r : Option Failure)
        → endpoint_allowed cmd.endpoint ≡ true
        → build_path float_text cmd.endpoint cmd.params ≡ err e
        → Clock false past
        → Story r (
            (
              complete_read_command cmd.id
                  (codes "failed")
                  none
                  (codes "bad params: " ++ message e),
              r,
            )
            ∷ (claim_read_command cmd.id, ok true)
            ∷ past)
    -- Proxmox is read, and the row gets the body or the error.
    answered :
        {past : Events} (path : Bytes) (reply : Result Bytes) (status : Bytes)
        (result : Option Bytes) (err_msg : Bytes) (r : Option Failure)
        → endpoint_allowed cmd.endpoint ≡ true
        → build_path float_text cmd.endpoint cmd.params ≡ ok path
        → ((body : Bytes) × (reply ≡ ok body)
            × (status ≡ codes "done")
            × (result ≡ some body)
            × (err_msg ≡ []))
          ⊎ ((e : Failure) × (reply ≡ err e)
              × (status ≡ codes "failed")
              × (result ≡ none)
              × (err_msg ≡ message e))
        → Clock false past
        → Story r (
            (complete_read_command cmd.id status result err_msg, r)
            ∷ (get_raw path read_timeout, reply)
            ∷ (claim_read_command cmd.id, ok true)
            ∷ past)

  after_get-Story :
      {past : Events} (path : Bytes)
      → endpoint_allowed cmd.endpoint ≡ true
      → build_path float_text cmd.endpoint cmd.params ≡ ok path
      → Clock false past
      → (reply : Result Bytes)
      → Ends Story
          ((get_raw path read_timeout, reply) ∷ (claim_read_command cmd.id, ok true) ∷ past)
          (after_get cmd.id reply)
  unfolding after_get
  after_get-Story path allowed built clock (err e) =
      λ r. answered path _ _ _ _ r allowed built (inr (e, refl, refl, refl, refl)) clock
  after_get-Story path allowed built clock (ok body) =
      λ r. answered path _ _ _ _ r allowed built (inl (body, refl, refl, refl, refl)) clock

  fetch-Story :
      {past : Events}
      → endpoint_allowed cmd.endpoint ≡ true
      → Clock false past
      → (b : Result Bytes) → build_path float_text cmd.endpoint cmd.params ≡ b
      → Ends Story ((claim_read_command cmd.id, ok true) ∷ past) (fetch cmd.id b)
  unfolding fetch
  fetch-Story allowed clock (err e) built = λ r. bad_params e r allowed built clock
  fetch-Story allowed clock (ok path) built =
      λ reply. after_get-Story path allowed built clock reply

  claimed-Story :
      {past : Events}
      → Clock false past
      → Ends Story ((claim_read_command cmd.id, ok true) ∷ past) (claimed float_text cmd)
  unfolding claimed
  claimed-Story {past} clock =
      if-split (Ends Story ((claim_read_command cmd.id, ok true) ∷ past))
        (not (endpoint_allowed cmd.endpoint)) (λ bad r. not_allowed r (ground arith) clock)
        λ good. fetch-Story (ground arith) clock _ refl

  after_claim-Story :
      {past : Events}
      → Clock false past
      → (r : Result Bool)
      → Ends Story ((claim_read_command cmd.id, r) ∷ past) (after_claim float_text cmd r)
  unfolding after_claim
  after_claim-Story clock (err e) = claim_failed e clock
  after_claim-Story clock (ok false) = claim_lost clock
  after_claim-Story clock (ok true) = claimed-Story clock

  after_expired_claim-Story :
      {past : Events}
      → Clock true past
      → (r : Result Bool)
      → Ends Story ((claim_read_command cmd.id, r) ∷ past) (after_expired_claim cmd r)
  unfolding after_expired_claim
  after_expired_claim-Story clock (err e) = late_claim_failed e clock
  after_expired_claim-Story clock (ok false) = claim_lost clock
  after_expired_claim-Story clock (ok true) = λ r. expired r clock

  handle-Ends : Ends Story [] (handle float_text cmd)
  unfolding handle handle_live handle_expired
  handle-Ends =
      if-split (Ends Story []) (cmd.expires_at == 0)
        (λ never. after_claim-Story (no_deadline ((==_iff cmd.expires_at 0).0 never) refl))
        λ timed time.
          if-split (Ends Story ((now, time) ∷ [])) (ltb cmd.expires_at time)
            (λ late. after_expired_claim-Story (read_clock time timed (sym late)))
            (λ early. after_claim-Story (read_clock time timed (sym early)))

  -- In every world a read command has one of the stories of the specification: it is claimed once;
  -- past the deadline it is written off as expired; Proxmox is read only at a path that is built from
  -- an endpoint of the whitelist, and once at most; and whoever wins the claim writes the row once,
  -- with the body of the answer or with the reason of the failure.
  pub read-Story :
      (w : World Call Reply) → let (r, t) = run w [] (handle float_text cmd) in Story r t
  read-Story w = run-Ends Story w [] (handle float_text cmd) handle-Ends
