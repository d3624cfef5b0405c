-- ===== src/CommandLine/Tests.antt =====
-- The commands of the binary at concrete values.
use proxmoxvue_agent.Base.{true, none, some, [], Bytes, codes}
use proxmoxvue_agent.Base.Program.{World, run}
use proxmoxvue_agent.Base.Int.{pos}
use proxmoxvue_agent.Base.Failure.{text, ok, err}
use proxmoxvue_agent.Json.{member, end, string, object}
use proxmoxvue_agent.Config.Storage.{File}
use proxmoxvue_agent.Enroll.{Options}
use proxmoxvue_agent.Supabase.Session
use proxmoxvue_agent.CommandLine.Register.{
  loaded, Call, Reply, post_enroll, load, save, generate_keypair, new_client, upload_public_key,
  is_stdin_tty, ask, run_register,
}
use proxmoxvue_agent.CommandLine.Register.Merge.{run_register-Safe}
use proxmoxvue_agent.CommandLine.Register.Kept.{Safe}

abbrev old_settings : File
old_settings = record {
  supabase = record {
    cluster_id = codes "c0";
    refresh_token = codes "r0";
    private_key = codes "a2V5";
  };
  proxmox = record {
    api_url = codes "https://pve:8006";
    api_token_id = [];
    api_token_secret = [];
    verify_tls = true;
  };
  agent = record {
    poll_interval_seconds = pos 15;
    log_level = codes "debug";
    log_file_path = [];
    log_max_size_mb = pos 0;
    log_max_backups = pos 0;
    log_max_age_days = pos 0;
  };
}

abbrev enrolment : Options
enrolment = record { code = codes "ABC"; project_ref = codes "ref" }

-- A user who answers every prompt in the same way.
abbrev user : World Call Reply
user past (post_enroll opts) = Session.response 200 (record {
  raw = [];
  json = ok (
      some (
        object (
          member (codes "cluster_id") (string (codes "c1"))
            (member (codes "refresh_token") (string (codes "r1")) end))));
})
user past (load path) = loaded old_settings
user past (save path f) = none
user past generate_keypair = err (text (codes "no entropy"))
user past (new_client refresh_token) = none
user past (upload_public_key cluster_id private_key) = some none
user past is_stdin_tty = true
user past (ask prompt) = codes " agent@pve!agent\n"

abbrev quoted : Bytes → Bytes
quoted s = s

run_register-Safe_example :
    Safe (codes "config.yml") (run user [] (run_register quoted (codes "config.yml") enrolment)).1
run_register-Safe_example = run_register-Safe quoted (codes "config.yml") enrolment user
