-- ===== src/CommandLine/Register/Kept.antt =====
-- What a file of the settings keeps of another, and which files a run may write.
use proxmoxvue_agent.Base.{◌≡◌, Bool, true, false, Option, List, [], ◌∷◌, Bytes, is_empty}
use proxmoxvue_agent.Base.Program.{Event}
use proxmoxvue_agent.Base.Failure.{Failure}
use proxmoxvue_agent.Config.Storage.{File}
use proxmoxvue_agent.Config.Agent.{ensure_defaults}
use proxmoxvue_agent.CommandLine.Register.{
  loaded, missing, Call, Reply, load, save, is_fresh, empty_file,
}

abbrev pub Events : Type 0
Events = List (Event Call Reply)

-- A text that is there stays as it is.
abbrev pub Kept : Bytes → Bytes → Type 0
Kept old new = is_empty old ≡ false → new ≡ old

-- What the new settings keep of the old ones.
pub record Keeps (f g : File) : Type 0 where
  pub private_key : Kept f.supabase.private_key g.supabase.private_key
  pub api_url : Kept f.proxmox.api_url g.proxmox.api_url
  pub api_token_id : Kept f.proxmox.api_token_id g.proxmox.api_token_id
  pub api_token_secret : Kept f.proxmox.api_token_secret g.proxmox.api_token_secret
  pub verify_tls : is_fresh f ≡ false → g.proxmox.verify_tls ≡ f.proxmox.verify_tls
  pub agent : g.agent ≡ (ensure_defaults f.agent).0

abbrev pub is_save : Call → Bool
is_save (save path g) = true
is_save other = false

abbrev pub is_load : Call → Bool
is_load (load path) = true
is_load other = false

-- The last load of the run so far is one of the file at this path, and these settings came of it: those of
-- the file, or the empty ones where there is no file. One that could not be read gives none.
pub data Read (path : Bytes) : File → Events → Type 0 where
  just_read : {t : Events} (f : File) → Read path f ((load path, loaded f) ∷ t)
  not_there : {t : Events} → Read path empty_file ((load path, missing) ∷ t)
  before :
      {f : File} {t : Events} (c : Call) (r : Reply c)
      → is_load c ≡ false
      → Read path f t
      → Read path f ((c, r) ∷ t)

-- Each save so far is one to the file of the settings, behind a load of the same file, and keeps what was read.
pub data Safe (path : Bytes) : Events → Type 0 where
  at_first : Safe path []
  other :
      {t : Events} (c : Call) (r : Reply c)
      → is_save c ≡ false
      → Safe path t
      → Safe path ((c, r) ∷ t)
  saves :
      {t : Events} (f g : File) (r : Option Failure)
      → Safe path t
      → Read path f t
      → Keeps f g
      → Safe path ((save path g, r) ∷ t)
