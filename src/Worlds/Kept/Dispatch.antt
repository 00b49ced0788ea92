-- ===== src/Worlds/Kept/Dispatch.antt =====
-- The queue and its dispatcher (app/services/worlds.py).
use mcmanager.Common.{String, Bool, Option, none, some, List, [], ◌∷◌}
use mcmanager.Domain.Values.{OperationType, ActorType}
use mcmanager.Operations.Rows.{Operation}
use mcmanager.Worlds.Store.{Services, Host}
use mcmanager.Worlds.Exec.{Raised, Exec, ◌>>=◌}
use mcmanager.Worlds.Exec.Keeps.{Keeps, keeps_rules}
use mcmanager.Worlds.State.{open_sessions}
use mcmanager.Worlds.Dispatch.{
  or_create, enqueue, enqueue_start, enqueue_stop, enqueue_kill, of_type, of_world, execute,
  fail_current, executed_badly, run_claimed, claimed_one, dispatch_one, busy, turn, dispatch_each,
  dispatch_lifecycle_operations,
}
use mcmanager.Worlds.Kept.Stop.{stop_claimed-Keeps, kill_claimed-Keeps}
use mcmanager.Worlds.Kept.{IsKept, world-Keeps}
use mcmanager.Worlds.Kept.Start.{start_claimed-Keeps, precheck-Keeps}

module _ (host : Host) (P : Services → Type 0) (kept : IsKept host P) where
  or_create-Keeps :
      (o : Option Operation) (check : Exec (Unit {0})) (t : OperationType) (world_id : String)
      (actor : ActorType) (by : Option String) (key : String)
      → Keeps P check
      → Keeps P (or_create host o check t world_id actor by key)
  unfolding or_create
  or_create-Keeps (some row) check t world_id actor by key h = search keeps_rules
  or_create-Keeps none check t world_id actor by key h = search (keeps_rules, kept.creates) depth 8

  pub enqueue-Keeps :
      (check : Exec (Unit {0})) (t : OperationType) (world_id : String) (actor : ActorType)
      (by : Option String) (key : String)
      → Keeps P check
      → Keeps P (enqueue host check t world_id actor by key)
  unfolding enqueue
  enqueue-Keeps check t world_id actor by key h = search (keeps_rules, or_create-Keeps) depth 8

  pub enqueue_start-Keeps :
      (world_id : String) (actor : ActorType) (by : Option String) (key : String)
      → Keeps P (enqueue_start host world_id actor by key)
  unfolding enqueue_start
  enqueue_start-Keeps world_id actor by key =
      enqueue-Keeps _ _ world_id actor by key (precheck-Keeps host P kept world_id)

  known-Keeps :
      (world_id : String)
      → Keeps P (mcmanager.Worlds.State.world world_id >>= λ _. mcmanager.Worlds.Exec.pure tt)
  known-Keeps world_id = search (keeps_rules, world-Keeps host P kept)

  pub enqueue_stop-Keeps :
      (world_id : String) (actor : ActorType) (by : Option String) (key : String)
      → Keeps P (enqueue_stop host world_id actor by key)
  unfolding enqueue_stop
  enqueue_stop-Keeps world_id actor by key =
      enqueue-Keeps _ _ world_id actor by key (known-Keeps world_id)

  pub enqueue_kill-Keeps :
      (world_id : String) (actor : ActorType) (by : Option String) (key : String)
      → Keeps P (enqueue_kill host world_id actor by key)
  unfolding enqueue_kill
  enqueue_kill-Keeps world_id actor by key =
      enqueue-Keeps _ _ world_id actor by key (known-Keeps world_id)

  of_type-Keeps :
      (t : OperationType) (world_id op_id : String) → Keeps P (of_type host t world_id op_id)
  unfolding of_type
  of_type-Keeps OperationType.start world_id op_id = start_claimed-Keeps host P kept world_id op_id
  of_type-Keeps OperationType.stop world_id op_id = stop_claimed-Keeps host P kept world_id op_id
  of_type-Keeps _ world_id op_id = kill_claimed-Keeps host P kept world_id op_id

  of_world-Keeps : (row : Operation) (w : Option String) → Keeps P (of_world host row w)
  unfolding of_world
  of_world-Keeps row none = search keeps_rules
  of_world-Keeps row (some w) = of_type-Keeps row.op_type w row.op_id

  pub execute-Keeps : (row : Operation) → Keeps P (execute host row)
  unfolding execute
  execute-Keeps row = of_world-Keeps row row.world_id

  fail_current-Keeps : (o : Option Operation) (e : Raised) → Keeps P (fail_current host o e)
  unfolding fail_current
  fail_current-Keeps none e = search keeps_rules
  fail_current-Keeps (some row) e = search (keeps_rules, kept.moves) depth 8

  executed_badly-Keeps : (op_id : String) (e : Raised) → Keeps P (executed_badly host op_id e)
  unfolding executed_badly
  executed_badly-Keeps op_id e = search (keeps_rules, fail_current-Keeps) depth 8

  pub run_claimed-Keeps : (row : Operation) → Keeps P (run_claimed host row)
  unfolding run_claimed
  run_claimed-Keeps row = search (keeps_rules, execute-Keeps, executed_badly-Keeps) depth 8

  claimed_one-Keeps : (o : Option Operation) → Keeps P (claimed_one host o)
  unfolding claimed_one
  claimed_one-Keeps none = search keeps_rules
  claimed_one-Keeps (some row) = search (keeps_rules, run_claimed-Keeps) depth 8

  pub dispatch_one-Keeps : (row : Operation) → Keeps P (dispatch_one host row)
  unfolding dispatch_one
  dispatch_one-Keeps row = search (keeps_rules, kept.claims, claimed_one-Keeps) depth 8

  busy-Keeps : (w : Option String) (op_id : String) → Keeps P (busy host w op_id)
  unfolding busy
  busy-Keeps none op_id = search keeps_rules
  busy-Keeps (some w) op_id = search keeps_rules

  pub turn-Keeps : (seen : Bool) (row : Operation) → Keeps P (turn host seen row)
  unfolding turn
  turn-Keeps seen row = search (keeps_rules, busy-Keeps, dispatch_one-Keeps) depth 12

  pub dispatch_each-Keeps :
      (seen : List String) (rows : List Operation) → Keeps P (dispatch_each host seen rows)
  unfolding dispatch_each
  dispatch_each-Keeps seen [] = search keeps_rules
  dispatch_each-Keeps seen (row ∷ rows) =
      search (keeps_rules, turn-Keeps, λ (v : List String). dispatch_each-Keeps v rows) depth 12

  pub dispatch-Keeps : Keeps P (dispatch_lifecycle_operations host)
  unfolding dispatch_lifecycle_operations
  dispatch-Keeps = search (keeps_rules, dispatch_each-Keeps) depth 8
