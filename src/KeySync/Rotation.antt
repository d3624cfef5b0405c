-- ===== src/KeySync/Rotation.antt =====
-- What the rotation of the key leaves behind.
use proxmoxvue_agent.Base.{◌≡◌, refl, sym, Option, none, some, List, [], ◌∷◌, Bytes, codes}
use proxmoxvue_agent.Base.Program.{ret, ◌>>=◌, Event, World, run}
use proxmoxvue_agent.Base.Failure.{Failure, wrap, Result, ok, err}
use mathlib.Core.Path.{subst}
use proxmoxvue_agent.Crypto.{Hpke}
use proxmoxvue_agent.Base64
use proxmoxvue_agent.Base64.RoundTrip.{decode-encode}
use proxmoxvue_agent.Base.Ledger.{Ends, run-Ends}
use proxmoxvue_agent.KeySync.{
  KeyBytes, Call, Reply, generate_keypair, save, upload, public_key_from_private, with_public_key,
  with_private_key, upload_public_key, rotated, after_save, after_key, rotate_key,
}

abbrev pub Events : Type 0
Events = List (Event Call Reply)

module _ (hpke : Hpke) (public_of : hpke.PrivateKey → Result Bytes) (cluster_id : Bytes) where
  -- What a run of RotateKey is.
  pub data Rotated : Option Bytes × Option Failure → Events → Type 0 where
    not_generated :
        (e : Failure)
        → Rotated
            (none, some (wrap (codes "generate keypair: ") e))
            ((generate_keypair, err e) ∷ [])
    not_saved :
        (key : KeyBytes) (e : Failure)
        → Rotated
            (none, some (wrap (codes "save config with rotated private key: ") e))
            ((save (Base64.encode key.0), some e) ∷ (generate_keypair, ok key) ∷ [])
    -- The key has no public key.
    underivable :
        (key : KeyBytes) (e : Failure)
        → public_key_from_private hpke public_of key.0 ≡ err e
        → Rotated
            (rotated (Base64.encode key.0) (some (wrap (codes "derive public key: ") e)))
            ((save (Base64.encode key.0), none) ∷ (generate_keypair, ok key) ∷ [])
    uploaded :
        (key : KeyBytes) (public_key : Bytes) (r : Option Failure)
        → public_key_from_private hpke public_of key.0 ≡ ok public_key
        → Rotated (rotated (Base64.encode key.0) r) (
            (upload cluster_id public_key, r)
            ∷ (save (Base64.encode key.0), none)
            ∷ (generate_keypair, ok key)
            ∷ [])

  abbrev Saved : KeyBytes → Events
  Saved key = (save (Base64.encode key.0), none) ∷ (generate_keypair, ok key) ∷ []

  with_public_key-Rotated :
      (key : KeyBytes) (r : Result Bytes)
      → public_key_from_private hpke public_of key.0 ≡ r
      → Ends Rotated (Saved key) (
          with_public_key hpke public_of cluster_id r >>= λ r.
          ret (rotated (Base64.encode key.0) r))
  unfolding with_public_key
  with_public_key-Rotated key (err e) same = underivable key e same
  with_public_key-Rotated key (ok public_key) same = λ r. uploaded key public_key r same

  after_save-Rotated :
      (key : KeyBytes) (saved : Option Failure)
      → Ends Rotated
          ((save (Base64.encode key.0), saved) ∷ (generate_keypair, ok key) ∷ [])
          (after_save hpke public_of cluster_id (Base64.encode key.0) saved)
  unfolding after_save upload_public_key with_private_key
  after_save-Rotated key (some e) = not_saved key e
  after_save-Rotated key none =
      let P : Result Bytes → Type 0 = λ r. Ends Rotated (Saved key) (
        with_private_key hpke public_of cluster_id r >>= λ r'.
        ret (rotated (Base64.encode key.0) r')) in
      subst P (sym (decode-encode key.0 key.1))
        (with_public_key-Rotated key (public_key_from_private hpke public_of key.0) refl)

  after_key-Rotated :
      (r : Result KeyBytes)
      → Ends Rotated ((generate_keypair, r) ∷ []) (after_key hpke public_of cluster_id r)
  unfolding after_key
  after_key-Rotated (err e) = not_generated e
  after_key-Rotated (ok key) = after_save-Rotated key

  -- In every world RotateKey saves a new key before anything is uploaded, uploads once at most, and
  -- then the public key that belongs to the saved private key; the saved text always decodes. Once the
  -- key is saved it is returned, whatever comes of the upload.
  pub rotate_key-Rotated :
      (w : World Call Reply)
      → let (r, t) = run w [] (rotate_key hpke public_of cluster_id) in Rotated r t
  unfolding rotate_key
  rotate_key-Rotated w =
      run-Ends Rotated w [] (rotate_key hpke public_of cluster_id) after_key-Rotated
