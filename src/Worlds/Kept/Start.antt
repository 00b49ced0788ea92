-- ===== src/Worlds/Kept/Start.antt =====
-- The methods on the way of a start (app/services/worlds.py).
use mcmanager.Common.{String, Bool, Option, none, some}
use mcmanager.Domain.Values.{EulaState}
use mcmanager.Worlds.Store.{
  WorldRow, ProcessHandle, Services, LaunchContext, GateResult, SpawnResult, Host,
}
use mcmanager.Worlds.Exec.{Raised}
use mcmanager.Worlds.Exec.Keeps.{Keeps, keeps_rules}
use mcmanager.Worlds.Start.{
  lost_race, refuse_gate, spawned, attach_log_sink, admitted, launched, start_body, start_broken,
  start_failed, start_claimed,
}
use mcmanager.Worlds.Launch.{
  with_runtime, gated, launch_context, validate_launch, provision_rcon, precheck,
}
use mcmanager.Worlds.Kept.Readiness.{await_readiness-Keeps}
use mcmanager.Worlds.Kept.{IsKept, world-Keeps, fail_operation-Keeps}

module _ (host : Host) (P : Services → Type 0) (kept : IsKept host P) where
  with_runtime-Keeps :
      (row : WorldRow) (path : Option String) → Keeps P (with_runtime host row path)
  unfolding with_runtime
  with_runtime-Keeps row none = search keeps_rules
  with_runtime-Keeps row (some path) = search (keeps_rules, kept.timeless)

  launch_context-Keeps : (row : WorldRow) → Keeps P (launch_context host row)
  unfolding launch_context
  launch_context-Keeps row = search (keeps_rules, with_runtime-Keeps)

  gated-Keeps :
      (row : WorldRow) (context : LaunchContext) (state : EulaState)
      → Keeps P (gated host row context state)
  unfolding gated
  gated-Keeps row context EulaState.accepted = search (keeps_rules, kept.timeless)
  gated-Keeps row context _ = search keeps_rules

  validate_launch-Keeps :
      (row : WorldRow) (context : LaunchContext) → Keeps P (validate_launch host row context)
  unfolding validate_launch
  validate_launch-Keeps row context = search (keeps_rules, kept.timeless, gated-Keeps)

  pub precheck-Keeps : (world_id : String) → Keeps P (precheck host world_id)
  unfolding precheck
  precheck-Keeps world_id =
      search
        (
          keeps_rules,
          world-Keeps host P kept,
          launch_context-Keeps,
          validate_launch-Keeps,
          kept.states,
        )
        depth 14

  provision_rcon-Keeps : (context : LaunchContext) → Keeps P (provision_rcon host context)
  unfolding provision_rcon
  provision_rcon-Keeps context = search (keeps_rules, kept.timeless)

  lost_race-Keeps : (op_id : String) (up : Bool) → Keeps P (lost_race host op_id up)
  unfolding lost_race
  lost_race-Keeps op_id up = search (keeps_rules, kept.moves) depth 8

  refuse_gate-Keeps :
      (op_id world_id : String) (gate : GateResult) → Keeps P (refuse_gate host op_id world_id gate)
  unfolding refuse_gate
  refuse_gate-Keeps op_id world_id gate =
      search (keeps_rules, fail_operation-Keeps host P kept, kept.states) depth 8

  spawned-Keeps :
      (op_id world_id : String) (result : SpawnResult) (handle : Option ProcessHandle)
      → Keeps P (spawned host op_id world_id result handle)
  unfolding spawned
  spawned-Keeps op_id world_id result (some handle) = search keeps_rules
  spawned-Keeps op_id world_id result none =
      search (keeps_rules, fail_operation-Keeps host P kept, kept.states) depth 8

  attach-Keeps : (handle : ProcessHandle) → Keeps P (attach_log_sink host handle)
  unfolding attach_log_sink
  attach-Keeps handle = search (keeps_rules, kept.timeless) depth 8

  pub admitted-Keeps : (world_id op_id : String) → Keeps P (admitted host world_id op_id)
  unfolding admitted
  admitted-Keeps world_id op_id =
      search
        (
          keeps_rules,
          kept.moves,
          world-Keeps host P kept,
          lost_race-Keeps,
          launch_context-Keeps,
          validate_launch-Keeps,
          refuse_gate-Keeps,
        )
        depth 20

  pub launched-Keeps :
      (world_id op_id : String) (row : WorldRow) (context : LaunchContext)
      → Keeps P (launched host world_id op_id row context)
  unfolding launched
  launched-Keeps world_id op_id row context =
      search
        (
          keeps_rules, kept.timeless, provision_rcon-Keeps, kept.states, spawned-Keeps, kept.opens,
          attach-Keeps,
        )
        depth 24

  pub start_body-Keeps : (world_id op_id : String) → Keeps P (start_body host world_id op_id)
  unfolding start_body
  start_body-Keeps world_id op_id =
      search
        (
          keeps_rules,
          admitted-Keeps,
          launched-Keeps,
          await_readiness-Keeps host P kept.timeless,
          kept.states,
          kept.moves,
        )
        depth 20

  start_broken-Keeps :
      (world_id op_id : String) (e : Raised) → Keeps P (start_broken host world_id op_id e)
  unfolding start_broken
  start_broken-Keeps world_id op_id e =
      search (keeps_rules, fail_operation-Keeps host P kept, kept.states) depth 12

  pub start_failed-Keeps :
      (world_id op_id : String) (e : Raised) → Keeps P (start_failed host world_id op_id e)
  unfolding start_failed
  start_failed-Keeps world_id op_id Raised.start_timeout =
      search (keeps_rules, kept.closes, kept.states, kept.moves) depth 12
  start_failed-Keeps world_id op_id e = start_broken-Keeps world_id op_id e

  pub start_claimed-Keeps : (world_id op_id : String) → Keeps P (start_claimed host world_id op_id)
  unfolding start_claimed
  start_claimed-Keeps world_id op_id =
      search (keeps_rules, precheck-Keeps, start_body-Keeps, start_failed-Keeps) depth 12
