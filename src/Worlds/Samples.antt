-- ===== src/Worlds/Samples.antt =====
-- Tables and ports for the runs of the driver (app/services/worlds.py).
use mcmanager.Common.{
  ℕ, String, string_eq, true, false, none, some, List, [], ◌∷◌, ◌*◌, ltb, if◌then◌else◌, ok, err,
  Result,
}
use mcmanager.Domain.Values.{
  WorldState, ServerType, ServerReadinessLevel, ExitClass, EulaState, user, OperationType,
  OperationStatus,
}
use mcmanager.Operations.Engine.{Engine}
use mcmanager.Worlds.Store.{WorldRow, Services, Host}
use mcmanager.Worlds.Dispatch.{enqueue_start}
use mcmanager.Worlds.Requests.{
  Request, starts, stops, queues_start, accepts, dispatches, polls, reconciles,
}
use mcmanager.Operations.Rows.{Operation}
use mcmanager.Operations.Methods.{new_row}
use mcmanager.Worlds.Exec.{Raised}
use mcmanager.Worlds.Start.{start_claimed}
use mcmanager.Worlds.Launch.{request_of}
use mcmanager.Worlds.Store.{ProcessHandle}
use mcmanager.Worlds.Eula.{accept_eula}
use mcmanager.Worlds.Deletion.{tombstone_row}

abbrev pub world_in : WorldState → WorldRow
world_in state = record {
  world_id = "w1";
  state = state;
  pre_backup_state = none;
  server_type = ServerType.vanilla;
  port = 25565;
  java_runtime_id = "java21";
  columns = [];
  metadata_version = 1;
  deleted_at = none;
  deleted_by = none;
  updated_at = 0;
}

abbrev pub no_operations : Engine
no_operations = record {
  operations = [];
  audits = [];
  notifications = [];
  usernames = ("u1", "alice") ∷ [];
  pending_checkpoints = [];
  progress_cache = [];
  published = [];
  realtime = true;
  notifies = true;
}

abbrev pub services_with : WorldState → Services
services_with state = record {
  engine = no_operations;
  worlds = world_in state ∷ [];
  sessions = [];
  java_runtimes = ("java21", "/usr/bin/java") ∷ [];
  eula_audits = ("w1", "u1") ∷ [];
  published = [];
  realtime = true;
  logs = true;
  audit = true;
  step = 0;
  slept = 0;
}

abbrev pub name_at : ℕ → String
name_at n =
    if ltb n 3 then "op_a" else if ltb n 12 then "op_b" else if ltb n 24 then "op_c" else "op_d"

-- a process that starts and is alive, and is ready at once
abbrev pub test_host : Host
test_host = record {
  clock = λ n. 100 * n;
  elapsed = λ n. 10 * n;
  identifier = name_at;
  token_urlsafe = λ n. "secret";
  launch_context =
      λ n row path. ok (record { world_dir = "/worlds/w1"; java_path = path; rcon_port = 35565 });
  launch_command = λ n row context. ok ("java" ∷ "server.jar" ∷ []);
  launch_marker = λ argv. "server.jar";
  write_properties = λ n context password. ok tt;
  detect_eula = λ n dir. ok EulaState.accepted;
  accept_eula = λ n row by. ok tt;
  validate_launch = λ n context. ok (record { passed = true; error_code = none; detail = none });
  spawn = λ n argv session.
      ok (record { handle = some (record { pid = 7; spawn_epoch = 1 }); spawn_error = none });
  tail = λ n handle. ok tt;
  poll = λ n handle. ok (record { alive = true; exit_class = ExitClass.running });
  probe = λ n world_id session. ok (record {
    found = true;
    handle = some (record { pid = 7; spawn_epoch = 1 });
    matched_launch = true;
  });
  write_stdin = λ n handle line. ok true;
  terminate = λ n handle deadline. ok (record { resolved = true; exit_class = ExitClass.graceful });
  close_handle = λ n handle. ok tt;
  store_secret = λ n plaintext. ok "s1";
  read_secret = λ n id. ok "secret";
  rcon_connect = λ n. some tt;
  rcon_ping = λ n. some true;
  rcon_command = λ n command. some true;
  target_level = λ server. ServerReadinessLevel.rcon_ready;
  paper_api = λ server. false;
  readiness = λ n server port ready valid. ok ServerReadinessLevel.rcon_ready;
}

abbrev pub process : ProcessHandle
process = record { pid = 7; spawn_epoch = 1 }

abbrev pub session : List Request
session =
    accepts "w1" "u1" true
    ∷ starts "w1" user (some "u1") false
    ∷ polls
    ∷ queues_start "w1" user (some "u1") "k1"
    ∷ dispatches
    ∷ reconciles
    ∷ stops "w1" user (some "u1")
    ∷ []

-- a start waits in the queue
abbrev pub queued_services : Services
queued_services =
    (enqueue_start test_host "w1" user (some "u1") "k1" (services_with WorldState.off)).1

-- a claimed operation on a world that is off, and on one that runs
abbrev pub claimed_op : OperationType → Operation
claimed_op op_type =
    new_row (request_of op_type "w1" user (some "u1") none) "op_a" OperationStatus.running 1

abbrev pub during : OperationType → WorldState → Services
during op_type state = record (services_with state) {
  engine = record no_operations { operations = claimed_op op_type ∷ [] };
}

abbrev pub after_start : Result Raised String × Services
after_start = start_claimed test_host "w1" "op_a" (during OperationType.start WorldState.off)

abbrev pub after_acceptance : Result Raised Operation × Services
after_acceptance = accept_eula test_host "w1" "u1" true (services_with WorldState.eula_required)

abbrev pub row_or : Operation → Result Raised Operation → Operation
row_or row (ok found) = found
row_or row (err e) = row

abbrev pub accepted_row : Operation
accepted_row = row_or (claimed_op OperationType.config_edit) after_acceptance.0

abbrev pub deleted_worlds : List WorldRow
deleted_worlds = tombstone_row 50 (some "u1") (world_in WorldState.off) ∷ []

abbrev pub version_of : WorldRow → ℕ
version_of r = r.metadata_version
