-- ===== src/Crypto.antt =====
-- internal/crypto/hpke.go. The cryptography itself, github.com/cloudflare/circl/hpke, is a
-- parameter.
use proxmoxvue_agent.Base.{ℕ, ◌+◌, ltb, if◌then◌else◌, length, take, drop, Bytes, codes}
use proxmoxvue_agent.Base.Failure.{text, Result, err, wrap_err, ◌>>=◌}

-- What `Decrypt` calls of circl: the key scheme, the receiver and the opener.
pub record Hpke : Type 1 where
  pub PrivateKey : Type 0
  pub Receiver : Type 0
  pub Opener : Type 0
  -- Scheme().UnmarshalBinaryPrivateKey
  pub unmarshal_private_key : Bytes → Result PrivateKey
  -- suite.NewReceiver(priv, nil)
  pub new_receiver : PrivateKey → Result Receiver
  -- receiver.Setup(encap)
  pub setup : Receiver → Bytes → Result Opener
  -- opener.Open(ciphertext, nil)
  pub open_sealed : Opener → Bytes → Result Bytes

abbrev pub kem_public_key_size : ℕ
kem_public_key_size = 32

module _ (hpke : Hpke) where
  open hpke use {unmarshal_private_key, new_receiver, setup, open_sealed}

  unfoldable pub decrypt : Bytes → Bytes → Result Bytes
  decrypt private_key payload =
      if ltb (length payload) (kem_public_key_size + 1)
      then err (text (codes "hpke decrypt: payload too short"))
      else do
        priv ← wrap_err (codes "hpke unmarshal private: ") (unmarshal_private_key private_key)
        let encap = take kem_public_key_size payload
        let ciphertext = drop kem_public_key_size payload
        receiver ← wrap_err (codes "hpke new receiver: ") (new_receiver priv)
        opener ← wrap_err (codes "hpke setup: ") (setup receiver encap)
        wrap_err (codes "hpke open: ") (open_sealed opener ciphertext)
