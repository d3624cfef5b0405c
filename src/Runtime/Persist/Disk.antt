-- ===== src/Runtime/Persist/Disk.antt =====
-- What the calls do to the files, and what a crash leaves of them.
use proxmoxvue_agent.Base.{◌≡◌, none, some, List, [], ◌∷◌, if◌then◌else◌, All, Bytes, str_eq}
use proxmoxvue_agent.Base.Program.{Program, ret, call, ◌>>=◌, Event, World, run}
use proxmoxvue_agent.Base.Failure.{ok, err}
use proxmoxvue_agent.Config.Storage.{File}
use proxmoxvue_agent.Runtime.Persist.{Call, Reply, load, save, create_temp, chmod, rename, remove}

pub data Content : Type 0 where
  absent : Content
  whole : File → Content
  -- Part of a file, or anything else that Load does not read.
  torn : Content

abbrev pub Disk : Type 0
Disk = Bytes → Content

abbrev pub put : Bytes → Content → Disk → Disk
put path content d p = if str_eq p path then content else d p

-- The files behind a call.
unfoldable pub after : (c : Call) → Reply c → Disk → Disk
after (load path) r d = d
after (save path f) none d = put path (whole f) d
after (save path f) (some e) d = put path torn d
after create_temp (ok tmp) d = put tmp torn d
after create_temp (err e) d = d
after (chmod path) r d = d
after (rename old_path new_path) none d = put old_path absent (put new_path (d old_path) d)
after (rename old_path new_path) (some e) d = d
after (remove path) r d = put path absent d

-- The files when the process ends amid a call: a write leaves a part, a rename is done or is not.
unfoldable pub amid : Call → Disk → Disk
amid (save path f) d = put path torn d
amid other d = d

-- What a reply tells of the files: what is whole is read as it is, and a temporary file is a new one.
unfoldable pub Tells : Disk → (c : Call) → Reply c → Type 0
Tells d (load path) (ok f) = (g : File) → d path ≡ whole g → f ≡ g
Tells d create_temp (ok tmp) = d tmp ≡ absent
Tells d c r = Unit

-- What the calls of a program do to the files.
pub record Effects (Call : Type 0) (Reply : Call → Type 0) : Type 1 where
  pub after : (c : Call) → Reply c → Disk → Disk
  pub amid : Call → Disk → Disk
  pub Tells : Disk → (c : Call) → Reply c → Type 0

abbrev pub file_effects : Effects Call Reply
file_effects = record { after = after; amid = amid; Tells = Tells }

module _ {Call : Type 0} {Reply : Call → Type 0} (fx : Effects Call Reply) where
  module _ {A : Type 0} (P : Disk → Type 0) (Q : A → Disk → Type 0) where
    -- The files have a property all the time, a crash at any moment included, and another in the end.
    abbrev pub Guards : Disk → Program Call Reply A → Type 0
    Guards d (ret a) = P d × Q a d
    Guards d (call c k) =
        P d × P (fx.amid c d) × ((r : Reply c) → fx.Tells d c r → Guards (fx.after c r d) (k r))

  -- The files behind a list of events, the latest first.
  abbrev pub disk_of : Disk → List (Event Call Reply) → Disk
  disk_of d [] = d
  disk_of d ((c, r) ∷ past) = fx.after c r (disk_of d past)

  -- An environment whose replies are about the files.
  abbrev pub IsHonest : Disk → World Call Reply → Type 0
  IsHonest d w =
      (past : List (Event Call Reply)) (c : Call) → fx.Tells (disk_of d past) c (w past c)

  -- All the states of the files that a crash can leave in a run.
  abbrev pub crashes :
      {A : Type 0}
      → World Call Reply
      → Disk
      → List (Event Call Reply)
      → Program Call Reply A
      → List Disk
  crashes w d past (ret a) = disk_of d past ∷ []
  crashes w d past (call c k) =
      let r = w past c in
      disk_of d past ∷ fx.amid c (disk_of d past) ∷ crashes w d ((c, r) ∷ past) (k r)

  pub run-Guards :
      {A : Type 0} (P : Disk → Type 0) (Q : A → Disk → Type 0) (w : World Call Reply) (d : Disk)
      (past : List (Event Call Reply)) (p : Program Call Reply A)
      → IsHonest d w
      → Guards P Q (disk_of d past) p
      → All P (crashes w d past p) × (let (a, t) = run w past p in Q a (disk_of d t))
  run-Guards P Q w d past (ret a) honest (h, q) = ((h, tt), q)
  run-Guards P Q w d past (call c k) honest (h, h', next) =
      let r = w past c in
      let (hs, q) = run-Guards P Q w d ((c, r) ∷ past) (k r) honest (next r (honest past c)) in
      ((h, (h', hs)), q)

  -- What one program leaves is where the next begins.
  pub Guards-bind :
      {A B : Type 0} (P : Disk → Type 0) (Q : A → Disk → Type 0) (R : B → Disk → Type 0) (d : Disk)
      (m : Program Call Reply A) (f : A → Program Call Reply B)
      → Guards P Q d m
      → ((a : A) (d' : Disk) → Q a d' → Guards P R d' (f a))
      → Guards P R d (m >>= f)
  Guards-bind P Q R d (ret a) f (h, q) go = go a d q
  Guards-bind P Q R d (call c k) f (h, h', next) go =
      (h, h', λ r told. Guards-bind P Q R (fx.after c r d) (k r) f (next r told) go)
