-- ===== src/Runtime/Tests.antt =====
-- The process of internal/runtime at concrete values.
use proxmoxvue_agent.Base.{
  ℕ, zero, suc, ◌+◌, ◌-◌, ◌*◌, ◌/◌, ◌%◌, ◌^◌, ◌≤◌, ◌<◌, ◌≡◌, ◌≢◌, refl, sym, ap, ◌∙◌, ◌↔◌, ◌⊎◌, inl,
  inr, Bool, true, false, not, ◌&&◌, ◌||◌, Option, none, some, List, [], ◌∷◌, ◌++◌, map, append-nil,
  append_assoc, arith, ltb, leb, ◌==◌, if◌then◌else◌, ==_iff, Bool-cases, Option-cases, &&-true,
  ||-true, length, take, drop, all, any, All, Bytes, codes, str_eq, str_eq_iff, str_eq→eq,
  str_eq_refl, is_empty, format_nat, if-cases, if-split,
}
use proxmoxvue_agent.Base.Program.{World, run}
use proxmoxvue_agent.Base.Int.{pos}
use proxmoxvue_agent.Base.Failure.{text, Result, ok, err}
use proxmoxvue_agent.Config.Storage.{File}
use proxmoxvue_agent.KeySync.{KeyBytes}
use proxmoxvue_agent.Json.{Json, member, end, string, number, object, array, cons, nil}
use proxmoxvue_agent.Proxmox.Client
use proxmoxvue_agent.Proxmox.Tasks
use proxmoxvue_agent.Proxmox.Tasks.{send, pause, poll_interval}
use proxmoxvue_agent.Proxmox.Tasks.Wait.{IsPaced, pauses}
use proxmoxvue_agent.Base.Ledger.{spent}
use proxmoxvue_agent.Supabase.Session
use proxmoxvue_agent.Supabase.Session.{Body, post_token, persist, attempt}
use proxmoxvue_agent.Runtime.Persist
use proxmoxvue_agent.Runtime.Persist.{load, create_temp, persist_refresh_to, with_token}
use proxmoxvue_agent.Runtime.Persist.Disk
use proxmoxvue_agent.Runtime.Persist.Disk.{
  Disk, Content, absent, whole, torn, file_effects, disk_of, crashes,
}
use proxmoxvue_agent.Runtime.Persist.Crash.{Safe, Verdict, persist_refresh_to-Safe}
use proxmoxvue_agent.Runtime.Start
use proxmoxvue_agent.Runtime.Start.{files, session, proxmox, generate_keypair, start, with_key}
use proxmoxvue_agent.Base64
use proxmoxvue_agent.Runtime.Start.Effects.{boot_effects}
use proxmoxvue_agent.Runtime.Start.Effects
use proxmoxvue_agent.Runtime.ClusterWait.{Outcome, matched, wait_for, shows, has_guest_state}
use proxmoxvue_agent.Proxmox.Cluster.{cluster_resources}
use proxmoxvue_agent.Runtime.ClusterWait.Matches.{Settles, InTime, wait_for-matches, wait_for-ends}

abbrev config_path : Bytes
config_path = codes "config.yml"

abbrev settings : File
settings = record {
  supabase = record { cluster_id = codes "c1"; refresh_token = codes "r0"; private_key = [] };
  proxmox = record {
    api_url = codes "https://pve:8006";
    api_token_id = codes "agent@pve!agent";
    api_token_secret = codes "secret";
    verify_tls = false;
  };
  agent = record {
    poll_interval_seconds = pos 30;
    log_level = codes "info";
    log_file_path = codes "/var/log/a.log";
    log_max_size_mb = pos 10;
    log_max_backups = pos 5;
    log_max_age_days = pos 30;
  };
}

abbrev disk : Disk
disk p = if str_eq p config_path then whole settings else absent

abbrev read : Content → Result File
read (whole f) = ok f
read other = err (text (codes "no such settings"))

abbrev fresh : Content → Result Bytes
fresh absent = ok (codes ".config-1.yml")
fresh other = err (text (codes "file exists"))

-- A disk on which all goes well.
abbrev answer : Disk → (c : Persist.Call) → Persist.Reply c
answer d (load path) = read (d path)
answer d create_temp = fresh (d (codes ".config-1.yml"))
answer d (Persist.save path f) = none
answer d (Persist.chmod path) = none
answer d (Persist.rename old_path new_path) = none
answer d (Persist.remove path) = none

same_file : (f g : File) → whole f ≡ whole g → f ≡ g
same_file f g h = ground arith

read-Tells :
    (d : Disk) (path : Bytes) (x : Content) → d path ≡ x → Disk.Tells d (load path) (read x)
unfolding Disk.Tells
read-Tells d path absent h = tt
read-Tells d path (whole f) h = λ g h'. same_file f g (sym h ∙ h')
read-Tells d path torn h = tt

fresh-Tells :
    (d : Disk) (x : Content) → d (codes ".config-1.yml") ≡ x → Disk.Tells d create_temp (fresh x)
unfolding Disk.Tells
fresh-Tells d absent h = h
fresh-Tells d (whole f) h = tt
fresh-Tells d torn h = tt

answer-Tells : (d : Disk) (c : Persist.Call) → Disk.Tells d c (answer d c)
unfolding Disk.Tells
answer-Tells d (load path) = read-Tells d path (d path) refl
answer-Tells d create_temp = fresh-Tells d (d (codes ".config-1.yml")) refl
answer-Tells d (Persist.save path f) = tt
answer-Tells d (Persist.chmod path) = tt
answer-Tells d (Persist.rename old_path new_path) = tt
answer-Tells d (Persist.remove path) = tt

abbrev sound : World Persist.Call Persist.Reply
sound past c = answer (disk_of file_effects disk past) c

config_read : disk config_path ≡ whole settings
unfolding str_eq
config_read = refl

persist_refresh_to-Safe_example :
    All
      (Safe config_path (codes "r1") settings)
      (crashes file_effects sound disk [] (persist_refresh_to config_path (codes "r1")))
    × (let (r, t) = run sound [] (persist_refresh_to config_path (codes "r1")) in
        Verdict config_path (codes "r1") settings r (disk_of file_effects disk t))
persist_refresh_to-Safe_example =
    persist_refresh_to-Safe config_path (codes "r1") settings disk sound config_read
      (λ past c. answer-Tells (disk_of file_effects disk past) c)

abbrev token_body : Body
token_body = record {
  raw = [];
  json = ok (
      some (
        object (
          member (codes "access_token") (string (codes "a1")) (
            member (codes "refresh_token") (string (codes "r1"))
              (member (codes "expires_in") (number (codes "3600")) end)))));
}

abbrev empty_object : Client.Exchange
empty_object = Client.response 200 [] (ok (some (object end)))

abbrev some_key : KeyBytes
some_key = (1 ∷ 2 ∷ [], (omega arith, (omega arith, tt)))

-- A backend that rotates the token, for an agent that has no key yet.
abbrev healthy : World Start.Call Start.Reply
healthy past (files c) = answer (disk_of boot_effects disk past) c
healthy past (session Session.now) = 10 ^ 9
healthy past (session (post_token token)) = Session.response 200 token_body
healthy past (session (persist token)) = none
healthy past (session (attempt request token)) = Session.response 200 token_body
healthy past (proxmox request) = empty_object
healthy past generate_keypair = ok some_key

abbrev host : Bytes → Result Bytes
host url = ok (codes "api.example.com")

abbrev quoted : Bytes → Bytes
quoted s = s

abbrev no_stamp : ℕ → Bytes
no_stamp time = codes "2026-01-01T00:00:00Z"

-- The first refresh has put r1 in the place of r0, and the save of the new key puts r0 back.
token_lost :
    let (r, t) =
      run healthy [] (
        start host quoted no_stamp config_path
          (codes "https://api.example.com")
          (codes "key")
          []) in
    disk_of boot_effects disk t config_path ≡ whole (with_key (Base64.encode some_key.0) settings)
unfolding start str_eq Start.after_settings Start.checked Start.validate
    proxmoxvue_agent.Proxmox.Settings.valid proxmoxvue_agent.Proxmox.Settings.is_blank
    proxmoxvue_agent.Base.has_prefix proxmoxvue_agent.Supabase.Client.new Start.versioned
    proxmoxvue_agent.Proxmox.Cluster.version Client.decoded Session.refresh Start.on_wire
    Session.after_post proxmoxvue_agent.Supabase.Token.decode_response Session.accept
    Session.persist_tokens persist_refresh_to Base64.encode proxmoxvue_agent.KeySync.after_first_key
    proxmoxvue_agent.KeySync.after_first_save proxmoxvue_agent.KeySync.ensure_private_key
    Persist.after_chmod Persist.after_load Persist.after_rename Persist.after_save
    Persist.after_temp Start.ensured Start.key_call Start.pinged Session.after_persist Disk.after
    Effects.after
token_lost = refl

-- A guest that is seen to run from the second poll on, on a clock that moves while the agent sleeps.
abbrev guest : Bytes → Json
guest status =
    object
      (member (codes "vmid") (number (codes "100")) (member (codes "status") (string status) end))

abbrev listed : Bytes → Client.Exchange
listed status =
    Client.response 200 []
      (ok (some (object (member (codes "data") (array (cons (guest status) nil)) end))))

abbrev settling : World Tasks.Call Tasks.Reply
settling past Tasks.now = poll_interval * spent pauses past
settling past (send request) =
    listed (if ltb (spent pauses past) 1 then codes "stopped" else codes "running")
settling past pause = none

running_shows : shows (pos 100) (codes "running") (listed (codes "running")) ≡ true
unfolding shows cluster_resources Client.decoded has_guest_state
running_shows = refl

settling-Settles : Settles (pos 100) (codes "running") settling 1
settling-Settles past late =
    if-split (λ status. shows (pos 100) (codes "running") (listed status) ≡ true)
      (ltb (spent pauses past) 1) (λ early. absurd (ground (arith, late))) (λ h. running_shows)

settling-InTime : InTime (pos 100) (codes "running") settling (0 + 10 ^ 9) 1
settling-InTime past few = omega (arith, few)

wait_for-matches_example :
    (run settling []
      (wait_for (pos 100) (record { expected = codes "running"; timeout = 10 ^ 9 }) 2)).0
    ≡ some matched
wait_for-matches_example =
    wait_for-matches (pos 100) (codes "running") settling (10 ^ 9) 1 2 settling-Settles
      settling-InTime (λ past. refl) (omega arith)

settling-IsPaced : IsPaced settling
settling-IsPaced past = omega arith

wait_for-ends_example :
    (r : Outcome) × ((run settling []
        (wait_for (pos 100) (record { expected = codes "running"; timeout = 10 ^ 9 }) 3)).0
      ≡ some r)
wait_for-ends_example =
    wait_for-ends (pos 100) (codes "running") settling settling-IsPaced (10 ^ 9) 3 (omega arith)
