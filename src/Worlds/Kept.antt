-- ===== src/Worlds/Kept.antt =====
-- What the steps on the tables keep, every method of app/services/worlds.py keeps.
pub mod Readiness
pub mod Start
pub mod Stop
pub mod Dispatch
pub mod Boot
pub mod Eula
use mcmanager.Common.{
  ℕ, zero, suc, String, Bool, true, false, Option, none, some, List, [], ◌∷◌, Result,
}
use mcmanager.Domain.Values.{
  WorldState, OperationType, OperationStatus, ActorType, EndReason, EulaState, ServerType,
}
use mcmanager.Domain.Lifecycle.{ordinary, eula_acceptance}
use mcmanager.Operations.Rows.{Operation, OperationInput}
use mcmanager.Operations.Milestones.{Milestone}
use mcmanager.Worlds.Store.{
  WorldRow, RuntimeSession, ProcessHandle, Services, LaunchContext, GateResult, SpawnResult, Host,
}
use mcmanager.Worlds.Exec.{Raised, Exec, ◌>>=◌}
use mcmanager.Worlds.Exec.Keeps.{Keeps, Timeless, keeps_rules}
use mcmanager.Worlds.State.{
  world, set_world_state, close_session, open_sessions, create_operation, transition_operation,
  claim_operation, fail_operation,
}
use mcmanager.Worlds.Readiness.{
  Rcon, wait_exit, wait_for_exit, teardown, after_connect, reach, consult, rcon_round, await,
  await_readiness,
}
use mcmanager.Worlds.Eula.{write_acceptance}
use mcmanager.Worlds.Start.{
  lost_race, refuse_gate, spawned, attach_log_sink, admitted, launched, start_body, start_failed,
  start_claimed, start,
}
use mcmanager.Worlds.Launch.{
  with_runtime, gated, launch_context, validate_launch, provision_rcon, open_session, precheck,
}

-- what the steps on the tables keep; the operations that the driver creates are queued
pub record IsKept (host : Host) (P : Services → Type 0) : Type 0 where
  pub timeless : Timeless P
  pub states :
      (world_id : String) (state : WorldState)
      → Keeps P (set_world_state host world_id state ordinary)
  pub accepts :
      (world_id : String) (state : WorldState)
      → Keeps P (set_world_state host world_id state eula_acceptance)
  pub audits : (world_id actor_user_id : String) → Keeps P (write_acceptance world_id actor_user_id)
  pub closes :
      (world_id : String) (reason : EndReason) → Keeps P (close_session host world_id reason)
  pub opens :
      (row : WorldRow) (handle : ProcessHandle) (argv : List String) (rcon_port : ℕ)
      (password session_id : String)
      → Keeps P (open_session host row handle argv rcon_port password session_id)
  pub creates :
      (request : OperationInput) (allow : Bool)
      → Keeps P (create_operation host request OperationStatus.queued allow)
  pub moves :
      (op_id : String) (status : OperationStatus) (m : Milestone)
      → Keeps P (transition_operation host op_id status m)
  pub claims : (op_id : String) → Keeps P (claim_operation host op_id)

module _ (host : Host) (P : Services → Type 0) (kept : IsKept host P) where
  pub world-Keeps : (world_id : String) → Keeps P (world world_id)
  unfolding world
  world-Keeps world_id = search keeps_rules

  pub fail_operation-Keeps :
      (op_id code : String) (message : Option String)
      → Keeps P (fail_operation host op_id code message)
  unfolding fail_operation
  fail_operation-Keeps op_id code message = kept.moves op_id _ _
