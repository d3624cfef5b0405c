-- ===== src/Runtime/Start/Tokens.antt =====
-- Which refresh token config.yml holds when the agent has started.
use proxmoxvue_agent.Base.{ℕ, ◌≡◌, Bool, true, false, Option, none, some, Bytes}
use proxmoxvue_agent.Base.Program.{Program, ◌>>=◌}
use proxmoxvue_agent.Base.Failure.{Failure, Result, ok, err}
use proxmoxvue_agent.Base.Compose.{interpret}
use proxmoxvue_agent.Config.Storage.{File}
use proxmoxvue_agent.Supabase.Client.{Client}
use proxmoxvue_agent.Supabase.Session.{Session, Body, post_token, persist, attempt, renewed}
use proxmoxvue_agent.Supabase.Session
use proxmoxvue_agent.KeySync.{upload}
use proxmoxvue_agent.KeySync
use proxmoxvue_agent.Base64
use proxmoxvue_agent.Runtime.Persist
use proxmoxvue_agent.Runtime.Persist.{with_token}
use proxmoxvue_agent.Runtime.Persist.Disk.{
  Content, absent, whole, torn, Disk, put, Effects, file_effects, Guards,
}
use proxmoxvue_agent.Runtime.Persist.Disk
use proxmoxvue_agent.Runtime.Start.{Call, Reply, with_key, Booted, Boot, key_call, ensured}
use proxmoxvue_agent.Runtime.Start.Effects.{boot_effects, Anything}

module _ (path : Bytes) (f : File) where
  -- The file as it was at the start, but for the token.
  abbrev pub HoldsToken : Bytes → Disk → Type 0
  HoldsToken token d = d path ≡ whole (with_token token f)

  abbrev Refreshed : Option (Result Bytes × Session) → Disk → Type 0
  Refreshed none d = Unit
  Refreshed (some (err e, s)) d = Unit
  Refreshed (some (ok token, s)) d = HoldsToken s.refresh_token d

  abbrev Leads : {A : Type 0} → (A → Disk → Type 0) → Disk → Program Call Reply A → Type 0
  Leads Q d p = Guards boot_effects Anything Q d p

  -- What config.yml holds when the agent has started.
  pub data Holds (b : Booted) (d : Disk) : Type 0 where
    -- The key was there: the token of the session.
    current : b.generated ≡ false → HoldsToken b.session.refresh_token d → Holds b d
    -- The key is new: the token from before the start.
    stale : b.generated ≡ true → d path ≡ whole (with_key b.private_key f) → Holds b d

  abbrev pub Started : Option (Result Booted) → Disk → Type 0
  Started none d = Unit
  Started (some (err e)) d = Unit
  Started (some (ok b)) d = Holds b d

  module _ (host_of : Bytes → Result Bytes) (quote : Bytes → Bytes) (stamp : ℕ → Bytes) where
    abbrev keyed :
        Session → Program KeySync.Call KeySync.Reply (Result (Bytes × Bool)) → Boot (Result Booted)
    keyed s p =
        interpret (key_call host_of quote stamp path f) p s >>= ensured host_of quote stamp path f
