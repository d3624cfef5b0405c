-- ===== src/Config/Storage.antt =====
-- internal/config/config.go: the file config.yml, how it is written and read. gopkg.in/yaml.v3
-- and the file system are parameters.
pub mod Comments
mod Tests
use proxmoxvue_agent.Base.{
  ℕ, zero, suc, ◌+◌, ◌-◌, ◌*◌, ◌/◌, ◌%◌, ◌^◌, ◌≤◌, ◌<◌, ◌≡◌, ◌≢◌, refl, sym, ap, ◌∙◌, ◌↔◌, ◌⊎◌, inl,
  inr, Bool, true, false, not, ◌&&◌, ◌||◌, Option, none, some, List, [], ◌∷◌, ◌++◌, map, append-nil,
  append_assoc, arith, ltb, leb, ◌==◌, if◌then◌else◌, ==_iff, Bool-cases, Option-cases, &&-true,
  ||-true, length, take, drop, all, any, All, Bytes, codes, str_eq, str_eq_iff, str_eq→eq,
  str_eq_refl, is_empty, format_nat, if-cases, if-split,
}
use proxmoxvue_agent.Base.Program.{Program, ret, call, ◌>>=◌, ◌>>◌, perform, Event, World, run}
use proxmoxvue_agent.Base.Int.{
  ℤ, pos, negsuc, is_zero, is_negative, is_positive, format_int, int_eq,
}
use proxmoxvue_agent.Base.Failure.{
  Failure, text, refresh_revoked, post_join_closed, wrap, message, is_revoked, Result, ok, err,
  wrap_err,
}
use proxmoxvue_agent.Config.Agent.{AgentConfig}
use proxmoxvue_agent.Config.Redaction.{SupabaseConfig, ProxmoxConfig}

-- type File struct
pub record File : Type 0 where
  pub supabase : SupabaseConfig
  pub proxmox : ProxmoxConfig
  pub agent : AgentConfig

-- yaml.Node, of which the code reads Kind, Value and Content and writes HeadComment. An alias stands
-- for all other kinds.
mutual
  pub data Node : Type 0 where
    document : (comment : Bytes) → Nodes → Node
    mapping : (comment : Bytes) → Nodes → Node
    sequence : (comment : Bytes) → Nodes → Node
    scalar : (comment value : Bytes) → Node
    alias : (comment value : Bytes) → Node

  pub data Nodes : Type 0 where
    nil : Nodes
    cons : Node → Nodes → Nodes

-- n.Value, which is empty for a node with content
abbrev pub value_of : Node → Bytes
value_of (document comment content) = []
value_of (mapping comment content) = []
value_of (sequence comment content) = []
value_of (scalar comment value) = value
value_of (alias comment value) = value

-- n.HeadComment = c
abbrev pub with_comment : Bytes → Node → Node
with_comment c (document comment content) = document c content
with_comment c (mapping comment content) = mapping c content
with_comment c (sequence comment content) = sequence c content
with_comment c (scalar comment value) = scalar c value
with_comment c (alias comment value) = alias c value

-- var fieldHeadComments
abbrev pub field_head_comments : List (Bytes × Bytes)
field_head_comments =
    (codes "supabase", codes "Cluster identity issued at registration. Don't edit manually.")
    ∷ (codes "supabase.cluster_id", codes "Cluster UUID issued by the backend during enrollment.")
    ∷ (
      codes "supabase.refresh_token",
      codes "Long-lived refresh token. Re-run --register if revoked.",
    )
    ∷ (
      codes "supabase.private_key",
      codes
          "X25519 private key (base64) for HPKE decrypt of LXC passwords. Generated at --register; treat as a secret.",
    )
    ∷ (codes "proxmox", codes "Direct connection to the local Proxmox VE API.")
    ∷ (codes "proxmox.api_url", codes "Proxmox API endpoint, e.g. https://<host>:8006.")
    ∷ (codes "proxmox.api_token_id", codes "Token ID in the form user@realm!tokenid.")
    ∷ (codes "proxmox.api_token_secret", codes "Token secret (UUID). Treat like a password.")
    ∷ (codes "proxmox.verify_tls", codes "Verify TLS cert; false for self-signed PVE certs.")
    ∷ (codes "agent", codes "Agent loop + logging settings.")
    ∷ (
      codes "agent.poll_interval_seconds",
      codes "Tick frequency for the snapshot push loop (default 30).",
    )
    ∷ (codes "agent.log_level", codes "debug | info | warn | error (default info).")
    ∷ (
      codes "agent.log_file_path",
      codes "Plain-text log file (default /var/log/proxmoxvue-agent.log).",
    )
    ∷ (
      codes "agent.log_max_size_mb",
      codes "Rotate the active file once it reaches this many MB (default 10).",
    )
    ∷ (
      codes "agent.log_max_backups",
      codes "Keep this many rotated files; FIFO, oldest deleted first (default 5).",
    )
    ∷ (
      codes "agent.log_max_age_days",
      codes "Delete rotated files older than this many days (default 30).",
    )
    ∷ []

-- The entry of a map with text keys.
unfoldable pub entry : Bytes → List (Bytes × Bytes) → Option Bytes
entry key [] = none
entry key ((k, v) ∷ rest) = let later = entry key rest in if str_eq k key then some v else later

-- if c, ok := fieldHeadComments[path]; ok { keyNode.HeadComment = c }
unfoldable pub annotate_key : Bytes → Node → Node
annotate_key path key = elim (entry path field_head_comments) [
  | none ↦ key
  | some c ↦ with_comment c key
]

-- prefix + "." + keyNode.Value, unless the prefix is empty
abbrev pub dotted : Bytes → Bytes → Bytes
dotted prefix key = if not (is_empty prefix) then prefix ++ codes "." ++ key else key

-- annotateComments(n, prefix)
abbrev mutual
  unfolding annotate_key

  pub annotate_comments : Node → Bytes → Node
  annotate_comments (document comment content) prefix =
      document comment (annotate_all content prefix)
  annotate_comments (mapping comment content) prefix =
      mapping comment (annotate_pairs content prefix)
  annotate_comments (sequence comment content) prefix = sequence comment content
  annotate_comments (scalar comment value) prefix = scalar comment value
  annotate_comments (alias comment value) prefix = alias comment value

  pub annotate_all : Nodes → Bytes → Nodes
  annotate_all nil prefix = nil
  annotate_all (cons n rest) prefix = cons (annotate_comments n prefix) (annotate_all rest prefix)

  -- The loop over the pairs of a mapping; a key without a value is left as it is.
  pub annotate_pairs : Nodes → Bytes → Nodes
  annotate_pairs nil prefix = nil
  annotate_pairs (cons key nil) prefix = cons key nil
  annotate_pairs (cons key (cons value rest)) prefix =
      let path = dotted prefix (value_of key) in
      cons (annotate_key path key)
        (cons (annotate_comments value path) (annotate_pairs rest prefix))

-- const configHeader
abbrev pub config_header : Bytes
config_header =
    codes "# proxmoxvue-agent config (generated by --register / --run)\n"
    ++ codes "# Per-key documentation is rendered inline below.\n\n"

-- What Save and Load call of yaml.v3.
pub record Yaml : Type 0 where
  -- root.Encode(f)
  pub encode : File → Result Node
  pub marshal : Node → Result Bytes
  pub unmarshal : Bytes → Result File

pub data Call : Type 0 where
  -- os.ReadFile
  read_file : (path : Bytes) → Call
  -- os.WriteFile, with mode 0600
  write_file : (path data_bytes : Bytes) → Call

abbrev pub Reply : Call → Type 0
Reply (read_file path) = Result Bytes
Reply (write_file path data_bytes) = Option Failure

module _ (yaml : Yaml) where
  -- The bytes that Save writes.
  unfoldable pub rendered : File → Result Bytes
  rendered f = elim (wrap_err (codes "encode: ") (yaml.encode f)) [
    | err e ↦ err e
    | ok root ↦ elim (wrap_err (codes "marshal: ") (yaml.marshal (annotate_comments root []))) [
      | err e ↦ err e
      | ok text_bytes ↦ ok (config_header ++ text_bytes)
    ]
  ]

  written : Bytes → Result Bytes → Program Call Reply (Option Failure)
  written path (err e) = ret (some e)
  written path (ok full) = do
    failed ← perform (write_file path full)
    ret (elim failed [
      | none ↦ none
      | some e ↦ some (wrap (codes "write " ++ path ++ codes ": ") e)
    ])

  -- Save(path, f)
  unfoldable pub save : Bytes → File → Program Call Reply (Option Failure)
  unfolding written
  save path f = written path (rendered f)

  unfoldable pub parsed : Bytes → Result Bytes → Result File
  parsed path (err e) = err (wrap (codes "read " ++ path ++ codes ": ") e)
  parsed path (ok data_bytes) = wrap_err (codes "unmarshal: ") (yaml.unmarshal data_bytes)

  -- Load(path)
  unfoldable pub load : Bytes → Program Call Reply (Result File)
  load path = do data_bytes ← perform (read_file path); ret (parsed path data_bytes)
