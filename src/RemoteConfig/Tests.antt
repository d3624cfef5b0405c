-- ===== src/RemoteConfig/Tests.antt =====
-- The fetcher of internal/remoteconfig at concrete values.
use proxmoxvue_agent.Base.{ℕ, none, some, [], codes}
use proxmoxvue_agent.Base.Program.{World, run}
use proxmoxvue_agent.Base.Failure.{text, Result, ok, err}
use proxmoxvue_agent.Json.{Json, member, end, object, number}
use proxmoxvue_agent.RemoteConfig.{response, Call, Reply, fetch, read_file, write_cache, load}
use proxmoxvue_agent.RemoteConfig.Load.{Loaded, load-Loaded}

abbrev any_time : Json → Result ℕ
any_time value = ok 1

-- The backend serves a later version, and there is no file.
abbrev outdated : World Call Reply
outdated past fetch =
    response 200 (ok (some (object (member (codes "schema_version") (number (codes "2")) end))))
outdated past read_file = err (text (codes "no such file"))
outdated past (write_cache cfg) = none

load-Loaded_example : let (r, t) = run outdated [] (load any_time) in Loaded any_time r t
load-Loaded_example = load-Loaded any_time outdated
