-- ===== src/Proxmox/Settings.antt =====
-- internal/proxmox/client.go: the settings of the client and their check.
use proxmoxvue_agent.Base.{
  ℕ, ◌≡◌, refl, Bool, true, false, not, ◌&&◌, ◌||◌, Option, none, some, [], ◌∷◌, ◌++◌, leb, ◌==◌,
  if◌then◌else◌, Bytes, codes, has_prefix,
}
use proxmoxvue_agent.Base.Failure.{Failure, text}

-- type Config struct
pub record Config : Type 0 where
  pub api_url : Bytes
  pub api_token_id : Bytes
  pub api_token_secret : Bytes
  pub verify_tls : Bool

-- How much of a space has been read: nothing, or the first bytes of one that has two or three.
pub data Spaces : Type 0 where
  between : Spaces
  -- c2, e1, e1 9a, e2, e2 80, e2 81, e3, e3 80
  two_bytes : Spaces
  ogham : Spaces
  ogham_mark : Spaces
  general : Spaces
  quads : Spaces
  mathematical : Spaces
  ideographic : Spaces
  ideographic_mark : Spaces

-- The next byte of a text of spaces, in the sense of unicode.IsSpace.
next_byte : Spaces → ℕ → Option Spaces
next_byte between c =
    if c == 32 || leb 9 c && leb c 13
    then some between
    else if c == 194
    then some two_bytes
    else if c == 225
    then some ogham
    else if c == 226
    then some general
    else if c == 227
    then some ideographic
    else none
next_byte two_bytes c = if c == 133 || c == 160 then some between else none
next_byte ogham c = if c == 154 then some ogham_mark else none
next_byte ogham_mark c = if c == 128 then some between else none
next_byte general c = if c == 128 then some quads else if c == 129 then some mathematical else none
next_byte quads c =
    if leb 128 c && leb c 138 || c == 168 || c == 169 || c == 175 then some between else none
next_byte mathematical c = if c == 159 then some between else none
next_byte ideographic c = if c == 128 then some ideographic_mark else none
next_byte ideographic_mark c = if c == 128 then some between else none

blank_from : Spaces → Bytes → Bool
blank_from between [] = true
blank_from other [] = false
blank_from at (c ∷ s) = elim (next_byte at c) [ none ↦ false | some at' ↦ blank_from at' s ]

-- strings.TrimSpace(s) == ""
unfoldable pub is_blank : Bytes → Bool
unfolding blank_from next_byte
is_blank s = blank_from between s

-- Config.Valid()
unfoldable pub valid : Config → Option Failure
valid c =
    if is_blank c.api_url
    then some (text (codes "proxmox.api_url is empty"))
    else if not (has_prefix (codes "https://") c.api_url)
        && not (has_prefix (codes "http://") c.api_url)
    then some (text (codes "proxmox.api_url must start with https:// or http://"))
    else if is_blank c.api_token_id
    then some (text (codes "proxmox.api_token_id is empty"))
    else if is_blank c.api_token_secret
    then some (text (codes "proxmox.api_token_secret is empty"))
    else none

-- The header Authorization of New(cfg)
unfoldable pub auth_header : Config → Bytes
auth_header c = codes "PVEAPIToken=" ++ c.api_token_id ++ codes "=" ++ c.api_token_secret

space_is_blank : is_blank (32 ∷ 194 ∷ 160 ∷ 9 ∷ []) ≡ true
unfolding is_blank
space_is_blank = refl

half_is_not : is_blank (32 ∷ 194 ∷ []) ≡ false
unfolding is_blank
half_is_not = refl
