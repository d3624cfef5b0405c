-- ===== src/Supabase/Realtime/Subscribe/Loop.antt =====
-- What the read loop of a connection does.
use proxmoxvue_agent.Base.{ℕ, zero, suc, ◌≡◌, refl, Option, none, some, List, ◌∷◌, sym, ◌∙◌, arith}
use proxmoxvue_agent.Base.Program.{Event}
use proxmoxvue_agent.Base.Failure.{Failure, post_join_closed, Result}
use proxmoxvue_agent.Base.Ledger.{Ends}
use proxmoxvue_agent.Json.{RawMessage}
use proxmoxvue_agent.Supabase.Realtime.Frame.{Kind, ack, insert, skipped, classify}
use proxmoxvue_agent.Supabase.Realtime.Frame.Meaning.{
  IsAck, Inserts, classify-Means, IsAck-classify, Inserts-classify,
}
use proxmoxvue_agent.Supabase.Realtime.Subscribe.{
  Call, Reply, Read, lost, frame, read, count_ack, deliver, Loop, after_deliver, on_kind, on_read,
  read_loop,
}

abbrev pub Events : Type 0
Events = List (Event Call Reply)

-- The events of the read loop behind those of `base`: each frame is read and then counted, if it
-- answers a heartbeat, delivered, if it tells of an inserted row, or passed over, if it is neither.
pub data Looped (base : Events) : Events → Type 0 where
  begun : Looped base base
  passed_over :
      {t : Events} (x : Result RawMessage)
      → Looped base t
      → ¬ (IsAck x)
      → ((v : RawMessage) → ¬ (Inserts v x))
      → Looped base ((read, frame x) ∷ t)
  counted :
      {t : Events} (x : Result RawMessage)
      → Looped base t
      → IsAck x
      → Looped base ((count_ack, tt) ∷ (read, frame x) ∷ t)
  delivered :
      {t : Events} (x : Result RawMessage) (record_value : RawMessage)
      → Looped base t
      → Inserts record_value x
      → Looped base ((deliver record_value, none) ∷ (read, frame x) ∷ t)

-- How the loop ends.
pub data LoopEnded (base : Events) : Option Failure → Events → Type 0 where
  still_running : {t : Events} → Looped base t → LoopEnded base none t
  connection_lost :
      {t : Events} (e : Failure)
      → Looped base t
      → LoopEnded base (some post_join_closed) ((read, lost e) ∷ t)
  cancelled :
      {t : Events} (x : Result RawMessage) (record_value : RawMessage) (e : Failure)
      → Looped base t
      → Inserts record_value x
      → LoopEnded base (some e) ((deliver record_value, some e) ∷ (read, frame x) ∷ t)

module _ (base : Events) where
  on_kind-Ends :
      (t : Events) (rest : Loop) (x : Result RawMessage) (k : Kind)
      → Looped base t
      → classify x ≡ k
      → ((t' : Events) → Looped base t' → Ends (LoopEnded base) t' rest)
      → Ends (LoopEnded base) ((read, frame x) ∷ t) (on_kind rest k)
  unfolding on_kind after_deliver
  on_kind-Ends t rest x ack so_far same go =
      λ done. go _ (counted x so_far (classify-Means x ack same))
  on_kind-Ends t rest x skipped so_far same go = go _ (
      passed_over x so_far
        (λ answers. let clash = sym same ∙ IsAck-classify x answers in absurd (ground arith))
        (λ v inserted.
          let clash = sym same ∙ Inserts-classify x v inserted in absurd (ground arith)))
  on_kind-Ends t rest x (insert record_value) so_far same go = after
    where
      after :
          (r : Option Failure)
          → Ends
              (LoopEnded base)
              ((deliver record_value, r) ∷ (read, frame x) ∷ t)
              (after_deliver rest r)
      after none =
          go _ (delivered x record_value so_far (classify-Means x (insert record_value) same))
      after (some e) =
          cancelled x record_value e so_far (classify-Means x (insert record_value) same)

  on_read-Ends :
      (t : Events) (rest : Loop) (r : Read)
      → Looped base t
      → ((t' : Events) → Looped base t' → Ends (LoopEnded base) t' rest)
      → Ends (LoopEnded base) ((read, r) ∷ t) (on_read rest r)
  unfolding on_read
  on_read-Ends t rest (lost e) so_far go = connection_lost e so_far
  on_read-Ends t rest (frame x) so_far go = on_kind-Ends t rest x (classify x) so_far refl go

  pub read_loop-Ends : (n : ℕ) (t : Events) → Looped base t → Ends (LoopEnded base) t (read_loop n)
  unfolding read_loop
  read_loop-Ends zero t so_far = still_running so_far
  read_loop-Ends (suc n) t so_far = λ r. on_read-Ends t (read_loop n) r so_far (read_loop-Ends n)
