-- ===== src/KeySync/Tests.antt =====
-- The rotation of the key at concrete values.
use proxmoxvue_agent.Base.{none, some, [], ◌∷◌, arith, Bytes, codes}
use proxmoxvue_agent.Base.Program.{World, run}
use proxmoxvue_agent.Base.Failure.{text, Result, ok}
use proxmoxvue_agent.Crypto.{Hpke}
use proxmoxvue_agent.KeySync.{Call, Reply, generate_keypair, save, upload, rotate_key}
use proxmoxvue_agent.KeySync.Rotation.{Rotated, rotate_key-Rotated}

-- A scheme with no secrecy.
abbrev plain : Hpke
plain = record {
  PrivateKey = Bytes;
  Receiver = Bytes;
  Opener = Bytes;
  unmarshal_private_key = λ key. ok key;
  new_receiver = λ key. ok key;
  setup = λ key encap. ok encap;
  open_sealed = λ opener sealed. ok sealed;
}

abbrev same_key : Bytes → Result Bytes
same_key key = ok key

-- All is saved, and the upload fails.
abbrev offline : World Call Reply
offline past generate_keypair = ok (1 ∷ 2 ∷ 3 ∷ [], (omega arith, (omega arith, (omega arith, tt))))
offline past (save private_key) = none
offline past (upload cluster_id public_key) = some (text (codes "offline"))

rotate_key-Rotated_example :
    let (r, t) = run offline [] (rotate_key plain same_key (codes "c1")) in
    Rotated plain same_key (codes "c1") r t
rotate_key-Rotated_example = rotate_key-Rotated plain same_key (codes "c1") offline
