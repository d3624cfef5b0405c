-- ===== src/Base/Failure.antt =====
-- Go errors: a text, one of the two sentinels, or a wrapping by fmt.Errorf("...: %w", err).
use mathlib.Core.Bool.{Bool, true, false}
use mathlib.Core.List.{◌++◌}
use proxmoxvue_agent.Base.Text.{Bytes, codes}

pub data Failure : Type 0 where
  text : Bytes → Failure
  -- supabase.ErrRefreshRevoked
  refresh_revoked : Failure
  -- errPostJoinClosed
  post_join_closed : Failure
  -- `prefix` stands for the text up to `%w`
  wrap : Bytes → Failure → Failure

-- err.Error()
unfoldable pub message : Failure → Bytes
message (text s) = s
message refresh_revoked = codes "refresh token revoked"
message post_join_closed = codes "realtime ws closed (post-join)"
message (wrap s e) = s ++ message e

-- errors.Is(err, supabase.ErrRefreshRevoked)
unfoldable pub is_revoked : Failure → Bool
is_revoked (text s) = false
is_revoked refresh_revoked = true
is_revoked post_join_closed = false
is_revoked (wrap s e) = is_revoked e

-- A pair (value, error) of Go.
pub data Result {ℓ} (A : Type ℓ) : Type ℓ where
  ok : A → Result A
  err : Failure → Result A

-- `if err != nil { return ..., fmt.Errorf("...: %w", err) }`
abbrev pub wrap_err {ℓ} : {A : Type ℓ} → Bytes → Result A → Result A
wrap_err s (ok a) = ok a
wrap_err s (err e) = err (wrap s e)

-- `if err != nil { return ..., err }`
infixl 5 ◌>>=◌
abbrev pub ◌>>=◌ {ℓ κ} : {A : Type ℓ} {B : Type κ} → Result A → (A → Result B) → Result B
ok a >>= f = f a
err e >>= f = err e
