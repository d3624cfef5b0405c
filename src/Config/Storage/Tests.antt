-- ===== src/Config/Storage/Tests.antt =====
-- Saving, at concrete values.
use proxmoxvue_agent.Base.{◌≡◌, refl, false, none, [], Bytes, codes, str_eq}
use proxmoxvue_agent.Base.Program.{World, run}
use proxmoxvue_agent.Base.Int.{pos}
use proxmoxvue_agent.Base.Failure.{ok}
use proxmoxvue_agent.Config.Storage.{
  File, Node, mapping, scalar, nil, cons, annotate_comments, annotate_key, entry, Yaml, Call, Reply,
  read_file, write_file, save, rendered,
}
use proxmoxvue_agent.Config.Storage.Comments.{Saved, save-Saved}

abbrev settings : File
settings = record {
  supabase = record {
    cluster_id = codes "c1";
    refresh_token = codes "r0";
    private_key = codes "key";
  };
  proxmox = record {
    api_url = codes "https://pve:8006";
    api_token_id = codes "agent@pve!agent";
    api_token_secret = codes "secret";
    verify_tls = false;
  };
  agent = record {
    poll_interval_seconds = pos 30;
    log_level = codes "info";
    log_file_path = codes "/var/log/a.log";
    log_max_size_mb = pos 10;
    log_max_backups = pos 5;
    log_max_age_days = pos 30;
  };
}

-- The node of one key.
abbrev one_key : Bytes → Node
one_key comment = mapping [] (
    cons (scalar [] (codes "supabase")) (
      cons
        (mapping []
          (cons (scalar comment (codes "cluster_id")) (cons (scalar [] (codes "c1")) nil)))
        nil))

cluster_id_annotated :
    annotate_comments (one_key []) []
    ≡ mapping [] (
        cons
          (scalar
            (codes "Cluster identity issued at registration. Don't edit manually.")
            (codes "supabase"))
          (cons
            (mapping [] (
              cons
                (scalar
                  (codes "Cluster UUID issued by the backend during enrollment.")
                  (codes "cluster_id"))
                (cons (scalar [] (codes "c1")) nil)))
            nil))
unfolding annotate_comments annotate_key entry str_eq
cluster_id_annotated = refl

-- A library that knows a single file.
abbrev single : Yaml
single = record {
  encode = λ f. ok (one_key []);
  marshal = λ n. ok (codes "supabase:\n  cluster_id: c1\n");
  unmarshal = λ text_bytes. ok settings;
}

-- A disk that takes every write, and reads as empty.
abbrev blank_disk : World Call Reply
blank_disk past (read_file path) = ok []
blank_disk past (write_file path data_bytes) = none

save-Saved_example :
    let (failed, t) = run blank_disk [] (save single (codes "config.yml") settings) in
    Saved single (codes "config.yml") settings failed t
save-Saved_example = save-Saved single (codes "config.yml") settings blank_disk

saved : (run blank_disk [] (save single (codes "config.yml") settings)).0 ≡ none
unfolding save rendered
saved = refl
