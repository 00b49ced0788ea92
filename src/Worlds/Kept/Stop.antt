-- ===== src/Worlds/Kept/Stop.antt =====
-- `stop`, `kill` and the dispatcher (app/services/worlds.py).
use mcmanager.Common.{String, Bool, Option, none, some}
use mcmanager.Domain.Values.{ActorType}
use mcmanager.Worlds.Store.{RuntimeSession, ProcessHandle, Services, Host}
use mcmanager.Worlds.Exec.{Raised}
use mcmanager.Worlds.Exec.Keeps.{Keeps, keeps_rules}
use mcmanager.Worlds.State.{open_sessions}
use mcmanager.Worlds.Start.{start}
use mcmanager.Worlds.Stop.{
  resolve_handle, command_sent, send_to, to_secret, to_session, rcon_command_quiet, stop_process,
  attempt_graceful_stop, stop_body, kill_process, kill_body, ended_badly, stop_claimed,
  kill_claimed, stop, kill,
}
use mcmanager.Worlds.Kept.{IsKept, world-Keeps, fail_operation-Keeps}
use mcmanager.Worlds.Kept.Readiness.{wait_for_exit-Keeps}
use mcmanager.Worlds.Kept.Start.{precheck-Keeps, start_body-Keeps, start_failed-Keeps}

module _ (host : Host) (P : Services → Type 0) (kept : IsKept host P) where
  pub resolve_handle-Keeps : (world_id : String) → Keeps P (resolve_handle host world_id)
  unfolding resolve_handle
  resolve_handle-Keeps world_id = search (keeps_rules, kept.timeless) depth 8

  command_sent-Keeps :
      (command : String) (c : Option (Unit {0})) → Keeps P (command_sent host command c)
  unfolding command_sent
  command_sent-Keeps command none = search keeps_rules
  command_sent-Keeps command (some _) = search (keeps_rules, kept.timeless) depth 8

  send_to-Keeps : (secret_id command : String) → Keeps P (send_to host secret_id command)
  unfolding send_to
  send_to-Keeps secret_id command = search (keeps_rules, kept.timeless, command_sent-Keeps) depth 8

  to_secret-Keeps : (command : String) (o : Option String) → Keeps P (to_secret host command o)
  unfolding to_secret
  to_secret-Keeps command none = search keeps_rules
  to_secret-Keeps command (some id) = search (keeps_rules, send_to-Keeps) depth 8

  to_session-Keeps :
      (command : String) (o : Option RuntimeSession) → Keeps P (to_session host command o)
  unfolding to_session
  to_session-Keeps command none = search keeps_rules
  to_session-Keeps command (some r) = search (keeps_rules, to_secret-Keeps) depth 8

  rcon_command_quiet-Keeps :
      (world_id command : String) → Keeps P (rcon_command_quiet host world_id command)
  unfolding rcon_command_quiet open_sessions
  rcon_command_quiet-Keeps world_id command = search (keeps_rules, to_session-Keeps) depth 8

  stop_process-Keeps :
      (world_id : String) (handle : Option ProcessHandle)
      → Keeps P (stop_process host world_id handle)
  unfolding stop_process
  stop_process-Keeps world_id none = search keeps_rules
  stop_process-Keeps world_id (some handle) =
      search
        (
          keeps_rules,
          kept.timeless,
          rcon_command_quiet-Keeps,
          wait_for_exit-Keeps host P kept.timeless,
        )
        depth 24

  pub attempt_graceful_stop-Keeps :
      (world_id : String) → Keeps P (attempt_graceful_stop host world_id)
  unfolding attempt_graceful_stop
  attempt_graceful_stop-Keeps world_id =
      search (keeps_rules, resolve_handle-Keeps, stop_process-Keeps) depth 8

  pub stop_body-Keeps : (world_id op_id : String) → Keeps P (stop_body host world_id op_id)
  unfolding stop_body
  stop_body-Keeps world_id op_id =
      search (keeps_rules, kept.moves, kept.states, kept.closes, attempt_graceful_stop-Keeps) depth
        20

  pub kill_process-Keeps : (handle : Option ProcessHandle) → Keeps P (kill_process host handle)
  unfolding kill_process
  kill_process-Keeps none = search keeps_rules
  kill_process-Keeps (some handle) = search (keeps_rules, kept.timeless) depth 8

  pub kill_body-Keeps : (world_id op_id : String) → Keeps P (kill_body host world_id op_id)
  unfolding kill_body
  kill_body-Keeps world_id op_id =
      search
        (
          keeps_rules, kept.moves, kept.states, kept.closes, resolve_handle-Keeps,
          kill_process-Keeps,
        )
        depth 20

  pub ended_badly-Keeps :
      (op_id code : String) (e : Raised) → Keeps P (ended_badly host op_id code e)
  unfolding ended_badly
  ended_badly-Keeps op_id code e = search (keeps_rules, fail_operation-Keeps host P kept) depth 8

  pub stop_claimed-Keeps : (world_id op_id : String) → Keeps P (stop_claimed host world_id op_id)
  unfolding stop_claimed
  stop_claimed-Keeps world_id op_id =
      search (keeps_rules, world-Keeps host P kept, stop_body-Keeps, ended_badly-Keeps) depth 12

  pub kill_claimed-Keeps : (world_id op_id : String) → Keeps P (kill_claimed host world_id op_id)
  unfolding kill_claimed
  kill_claimed-Keeps world_id op_id =
      search (keeps_rules, world-Keeps host P kept, kill_body-Keeps, ended_badly-Keeps) depth 12

  pub start-Keeps :
      (world_id : String) (actor : ActorType) (by : Option String) (allow : Bool)
      → Keeps P (start host world_id actor by allow)
  unfolding start
  start-Keeps world_id actor by allow =
      search
        (
          keeps_rules,
          precheck-Keeps host P kept,
          kept.creates,
          start_body-Keeps host P kept,
          start_failed-Keeps host P kept,
        )
        depth 12

  pub stop-Keeps :
      (world_id : String) (actor : ActorType) (by : Option String)
      → Keeps P (stop host world_id actor by)
  unfolding stop
  stop-Keeps world_id actor by =
      search
        (keeps_rules, world-Keeps host P kept, kept.creates, stop_body-Keeps, ended_badly-Keeps)
        depth 12

  pub kill-Keeps :
      (world_id : String) (actor : ActorType) (by : Option String)
      → Keeps P (kill host world_id actor by)
  unfolding kill
  kill-Keeps world_id actor by =
      search
        (keeps_rules, world-Keeps host P kept, kept.creates, kill_body-Keeps, ended_badly-Keeps)
        depth 12
