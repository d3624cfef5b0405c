-- ===== src/KeySync.antt =====
-- internal/keysync/keysync.go: the key pair of the agent, with which passwords are sealed for it.
pub mod Rotation
mod Tests
use proxmoxvue_agent.Base.{
  ℕ, zero, suc, ◌+◌, ◌-◌, ◌*◌, ◌/◌, ◌%◌, ◌^◌, ◌≤◌, ◌<◌, ◌≡◌, ◌≢◌, refl, sym, ap, ◌∙◌, ◌↔◌, ◌⊎◌, inl,
  inr, Bool, true, false, not, ◌&&◌, ◌||◌, Option, none, some, List, [], ◌∷◌, ◌++◌, map, append-nil,
  append_assoc, arith, ltb, leb, ◌==◌, if◌then◌else◌, ==_iff, Bool-cases, Option-cases, &&-true,
  ||-true, length, take, drop, all, any, All, Bytes, codes, str_eq, str_eq_iff, str_eq→eq,
  str_eq_refl, is_empty, format_nat, if-cases, if-split,
}
use proxmoxvue_agent.Base.Program.{Program, ret, call, ◌>>=◌, ◌>>◌, perform, Event, World, run}
use proxmoxvue_agent.Base.Failure.{
  Failure, text, refresh_revoked, post_join_closed, wrap, message, is_revoked, Result, ok, err,
  wrap_err,
}
use proxmoxvue_agent.Crypto.{Hpke}
use proxmoxvue_agent.Base64
use proxmoxvue_agent.Base64.RoundTrip.{IsByte}

-- The bytes of a private key.
abbrev pub KeyBytes : Type 0
KeyBytes = (raw : Bytes) × All IsByte raw

pub data Call : Type 0 where
  -- agentcrypto.GenerateKeypair(), of which the private key is used
  generate_keypair : Call
  -- config.Save(configPath, *cfg), with this private key in the settings
  save : (private_key : Bytes) → Call
  -- sb.UploadClusterPublicKey(ctx, clusterID, pubBytes)
  upload : (cluster_id : Bytes) → (public_key : Bytes) → Call

abbrev pub Reply : Call → Type 0
Reply generate_keypair = Result KeyBytes
Reply (save private_key) = Option Failure
Reply (upload cluster_id public_key) = Option Failure

abbrev pub KeyProgram : Type 0 → Type 0
KeyProgram A = Program Call Reply A

-- EnsurePrivateKey, behind the call of Save
unfoldable pub after_first_save : Bytes → Option Failure → Result (Bytes × Bool)
after_first_save private_key (some e) = err (wrap (codes "save config with new private key: ") e)
after_first_save private_key none = ok (private_key, true)

unfoldable pub after_first_key : Result KeyBytes → KeyProgram (Result (Bytes × Bool))
after_first_key (err e) = ret (err (wrap (codes "generate keypair: ") e))
after_first_key (ok key) =
    let private_key = Base64.encode key.0 in
    call (save private_key) (λ saved. ret (after_first_save private_key saved))

-- EnsurePrivateKey(cfg, configPath), for the private key in the settings: the key, and whether it is
-- new
unfoldable pub ensure_private_key : Bytes → KeyProgram (Result (Bytes × Bool))
ensure_private_key private_key =
    if not (is_empty private_key)
    then ret (ok (private_key, false))
    else call generate_keypair after_first_key

-- The end of RotateKey: the key comes back with the error of the upload too.
abbrev pub rotated : Bytes → Option Failure → Option Bytes × Option Failure
rotated private_key none = (some private_key, none)
rotated private_key (some e) =
    (some private_key, some (wrap (codes "upload rotated public key: ") e))

-- `public_of` is priv.Public() with its MarshalBinary.
module _ (hpke : Hpke) (public_of : hpke.PrivateKey → Result Bytes) where
  -- PublicKeyFromPrivate(privateKey)
  unfoldable pub public_key_from_private : Bytes → Result Bytes
  public_key_from_private private_key = elim (hpke.unmarshal_private_key private_key) [
    | err e ↦ err (wrap (codes "hpke unmarshal private: ") e)
    | ok priv ↦ wrap_err (codes "hpke marshal public: ") (public_of priv)
  ]

  unfoldable pub with_public_key : Bytes → Result Bytes → KeyProgram (Option Failure)
  with_public_key cluster_id (err e) = ret (some (wrap (codes "derive public key: ") e))
  with_public_key cluster_id (ok public_key) =
      call (upload cluster_id public_key) (λ done. ret done)

  unfoldable pub with_private_key : Bytes → Result Bytes → KeyProgram (Option Failure)
  with_private_key cluster_id (err e) = ret (some (wrap (codes "decode private key: ") e))
  with_private_key cluster_id (ok raw) = with_public_key cluster_id (public_key_from_private raw)

  -- UploadPublicKey(ctx, sb, clusterID, privateKeyB64)
  unfoldable pub upload_public_key : Bytes → Bytes → KeyProgram (Option Failure)
  upload_public_key cluster_id private_key = with_private_key cluster_id (Base64.decode private_key)

  unfoldable pub after_save :
      Bytes → Bytes → Option Failure → KeyProgram (Option Bytes × Option Failure)
  after_save cluster_id private_key (some e) =
      ret (none, some (wrap (codes "save config with rotated private key: ") e))
  after_save cluster_id private_key none =
      upload_public_key cluster_id private_key >>= λ r. ret (rotated private_key r)

  unfoldable pub after_key : Bytes → Result KeyBytes → KeyProgram (Option Bytes × Option Failure)
  after_key cluster_id (err e) = ret (none, some (wrap (codes "generate keypair: ") e))
  after_key cluster_id (ok key) =
      let private_key = Base64.encode key.0 in
      call (save private_key) (after_save cluster_id private_key)

  -- RotateKey(ctx, cfg, configPath, sb): the key, none for an empty string, and the error
  unfoldable pub rotate_key : Bytes → KeyProgram (Option Bytes × Option Failure)
  rotate_key cluster_id = call generate_keypair (after_key cluster_id)
