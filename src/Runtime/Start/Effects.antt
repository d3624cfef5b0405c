-- ===== src/Runtime/Start/Effects.antt =====
-- What the calls of Start do to the files.
use proxmoxvue_agent.Base.Program.{Program, ret, call}
use proxmoxvue_agent.Base.Compose.{lift}
use proxmoxvue_agent.Runtime.Persist
use proxmoxvue_agent.Runtime.Persist.{with_token, persist_refresh_to, load}
use proxmoxvue_agent.Runtime.Persist.Disk.{
  Content, absent, whole, torn, Disk, put, Effects, file_effects, Guards, Guards-bind, disk_of,
  IsHonest, run-Guards,
}
use proxmoxvue_agent.Runtime.Persist.Disk
use proxmoxvue_agent.Runtime.Start.{
  Call, Reply, files, session, proxmox, generate_keypair, files_reply,
}

unfoldable pub after : (c : Call) → Reply c → Disk → Disk
unfolding Disk.after
after (files c) r d = Disk.after c r d
after (session c) r d = d
after (proxmox request) r d = d
after generate_keypair r d = d

unfoldable pub amid : Call → Disk → Disk
unfolding Disk.amid
amid (files c) d = Disk.amid c d
amid other d = d

unfoldable pub Tells : Disk → (c : Call) → Reply c → Type 0
unfolding Disk.Tells
Tells d (files c) r = Disk.Tells d c r
Tells d c r = Unit

abbrev pub boot_effects : Effects Call Reply
boot_effects = record { after = after; amid = amid; Tells = Tells }

-- At any time
abbrev pub Anything : Disk → Type 0
Anything d = Unit

-- A program of the files alone does to them what it does by itself.
pub lift-Guards :
    {A : Type 0} (P : Disk → Type 0) (Q : A → Disk → Type 0) (d : Disk)
    (p : Program Persist.Call Persist.Reply A)
    → Guards file_effects P Q d p
    → Guards boot_effects Anything Q d (lift files files_reply p)
unfolding after amid Tells
lift-Guards P Q d (ret a) (h, q) = (tt, q)
lift-Guards P Q d (call c k) (h, h', next) =
    (tt, tt, λ r told. lift-Guards P Q (Disk.after c r d) (k r) (next r told))
