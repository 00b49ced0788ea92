-- ===== src/Worlds/Stop.antt =====
-- `stop` and `kill` of app/services/worlds.py.
use mcmanager.Common.{
  String, string_eq, Bool, true, false, ◌&&◌, Option, none, some, List, [], ◌∷◌, ◌==◌, nat_eq,
  option_eq, filter, ltb, if◌then◌else◌,
}
use mcmanager.Domain.Values.{
  WorldState, OperationType, OperationStatus, ActorType, EndReason, ExitClass,
}
use mcmanager.Operations.Rows.{text, flag}
use mcmanager.Operations.Milestones.{Milestone, plain}
use mcmanager.Worlds.Store.{RuntimeSession, ProcessHandle, ProbeResult, Host}
use mcmanager.Worlds.Exec.{
  Raised, lifecycle, message_of, Exec, pure, raise, ask, ask_or_raise, catch, ◌>>=◌, ◌>>◌,
}
use mcmanager.Worlds.State.{
  world, close_session, open_sessions, create_operation, transition_operation, fail_operation,
}
use mcmanager.Worlds.Readiness.{wait_for_exit, stop_graceful_deadline}
use mcmanager.Worlds.Launch.{set_state, stage, request_of}

-- the open session of a world that is the latest
abbrev newest : Option RuntimeSession → List RuntimeSession → Option RuntimeSession
newest best [] = best
newest none (r ∷ rows) = newest (some r) rows
newest (some b) (r ∷ rows) = newest (some (if ltb b.started_at r.started_at then r else b)) rows

abbrev is_graceful : ExitClass → Bool
is_graceful ExitClass.graceful = true
is_graceful _ = false

module _ (host : Host) where
  abbrev found_handle : ProbeResult → Option ProcessHandle
  found_handle probe = if probe.found then probe.handle else none

  -- `_resolve_handle`
  unfoldable pub resolve_handle : String → Exec (Option ProcessHandle)
  resolve_handle world_id =
      ask_or_raise (λ n. host.probe n world_id none) >>= λ probe. pure (found_handle probe)

  abbrev heard : Option Bool → Bool
  heard none = false
  heard (some _) = true

  unfoldable pub command_sent : String → Option (Unit {0}) → Exec Bool
  command_sent command none = pure false
  command_sent command (some _) =
      ask (λ n. host.rcon_command n command) >>= λ answer. pure (heard answer)

  unfoldable pub send_to : String → String → Exec Bool
  send_to secret_id command = do
    ask_or_raise (λ n. host.read_secret n secret_id)
    connection ← ask host.rcon_connect
    command_sent command connection

  unfoldable pub to_secret : String → Option String → Exec Bool
  to_secret command none = pure true
  to_secret command (some id) = if id == "" then pure true else send_to id command

  unfoldable pub to_session : String → Option RuntimeSession → Exec Bool
  to_session command none = pure true
  to_session command (some r) =
      if r.rcon_port == 0 then pure true else to_secret command r.rcon_secret_id

  -- `_rcon_command_quiet`; false is a `MinecraftRconError`
  unfoldable pub rcon_command_quiet : String → String → Exec Bool
  rcon_command_quiet world_id command = do
    rows ← open_sessions host
    to_session command (newest none (filter (λ (r : RuntimeSession). r.world_id == world_id) rows))

  unfoldable pub stop_process : String → Option ProcessHandle → Exec Bool
  stop_process world_id none = pure true
  stop_process world_id (some handle) = do
    told ← rcon_command_quiet world_id "stop"
    exited ← if told then wait_for_exit host handle stop_graceful_deadline else pure false
    if exited then pure true else (do
      delivered ← ask_or_raise (λ n. host.write_stdin n handle "stop")
      gone ← if delivered then wait_for_exit host handle stop_graceful_deadline else pure false
      if gone then pure true else (do
        outcome ← ask_or_raise (λ n. host.terminate n handle 60)
        pure (outcome.resolved && is_graceful outcome.exit_class)))

  -- `_attempt_graceful_stop`
  unfoldable pub attempt_graceful_stop : String → Exec Bool
  attempt_graceful_stop world_id =
      resolve_handle world_id >>= λ handle. stop_process world_id handle

  abbrev stopped : Bool → Milestone
  stopped graceful = record plain {
    checkpoint = some (("stage", text "off") ∷ ("graceful", flag graceful) ∷ []);
  }

  -- the body of the `try` of `stop`
  unfoldable pub stop_body : String → String → Exec String
  stop_body world_id op_id = do
    transition_operation host op_id OperationStatus.running (stage "stopping")
    set_state host world_id WorldState.stopping
    closed ← attempt_graceful_stop world_id
    close_session host world_id (if closed then EndReason.graceful_stop else EndReason.forced_stop)
    set_state host world_id WorldState.off
    transition_operation host op_id OperationStatus.completed (stopped closed)
    pure op_id

  unfoldable pub kill_process : Option ProcessHandle → Exec (Unit {0})
  kill_process none = pure tt
  kill_process (some handle) = ask_or_raise (λ n. host.terminate n handle 0) >> pure tt

  -- the body of the `try` of `kill`
  unfoldable pub kill_body : String → String → Exec String
  kill_body world_id op_id = do
    transition_operation host op_id OperationStatus.running (stage "killing")
    set_state host world_id WorldState.stopping
    handle ← resolve_handle world_id
    kill_process handle
    close_session host world_id EndReason.forced_stop
    set_state host world_id WorldState.off
    transition_operation host op_id OperationStatus.completed (stage "off")
    pure op_id

  -- except Exception as exc
  unfoldable pub ended_badly : String → String → Raised → Exec String
  ended_badly op_id code e =
      fail_operation host op_id code (some (message_of e)) >> raise (lifecycle (message_of e))

  -- `stop` and `kill` with the operation that a dispatcher has claimed
  unfoldable pub stop_claimed : String → String → Exec String
  stop_claimed world_id op_id = do
    world world_id
    catch (stop_body world_id op_id) (ended_badly op_id "STOP_ERROR")

  unfoldable pub kill_claimed : String → String → Exec String
  kill_claimed world_id op_id = do
    world world_id
    catch (kill_body world_id op_id) (ended_badly op_id "KILL_ERROR")

  -- `stop` and `kill` with an operation of their own
  unfoldable pub stop : String → ActorType → Option String → Exec String
  stop world_id actor_type actor_user_id = do
    world world_id
    created ←
        create_operation host (request_of OperationType.stop world_id actor_type actor_user_id none)
          OperationStatus.queued false
    catch (stop_body world_id created.0.op_id) (ended_badly created.0.op_id "STOP_ERROR")

  unfoldable pub kill : String → ActorType → Option String → Exec String
  kill world_id actor_type actor_user_id = do
    world world_id
    created ←
        create_operation host (request_of OperationType.kill world_id actor_type actor_user_id none)
          OperationStatus.queued false
    catch (kill_body world_id created.0.op_id) (ended_badly created.0.op_id "KILL_ERROR")
