-- ===== src/Worlds/Dispatch.antt =====
-- `enqueue_start`, `enqueue_stop`, `enqueue_kill` and `dispatch_queued_operations` of
-- app/services/worlds.py.
use mcmanager.Common.{
  String, string_eq, Bool, true, false, Option, none, some, List, [], ◌∷◌, ◌++◌, contains,
  if◌then◌else◌,
}
use mcmanager.Domain.Values.{OperationType, OperationStatus, ActorType}
use mcmanager.Operations.Rows.{Operation, terminal}
use mcmanager.Operations.Engine.{get, has_active_operation, get_by_idempotency_key}
use mcmanager.Operations.Methods.{list_queued}
use mcmanager.Operations.Milestones.{plain}
use mcmanager.Worlds.Store.{Host}
use mcmanager.Worlds.Exec.{
  Raised, lifecycle, message_of, Exec, pure, raise, gets, catch, ◌>>=◌, ◌>>◌,
}
use mcmanager.Worlds.State.{world, create_operation, transition_operation, claim_operation}
use mcmanager.Worlds.Start.{start_claimed}
use mcmanager.Worlds.Launch.{request_of, precheck}
use mcmanager.Worlds.Stop.{stop_claimed, kill_claimed}

module _ (host : Host) where
  unfoldable pub or_create :
      Option Operation
      → Exec (Unit {0})
      → OperationType
      → String
      → ActorType
      → Option String
      → String
      → Exec (Operation × Bool)
  or_create (some row) check op_type world_id actor_type actor_user_id key = pure (row, true)
  or_create none check op_type world_id actor_type actor_user_id key =
      check
      >> create_operation host (request_of op_type world_id actor_type actor_user_id (some key))
          OperationStatus.queued false

  unfoldable pub enqueue :
      Exec (Unit {0})
      → OperationType
      → String
      → ActorType
      → Option String
      → String
      → Exec (Operation × Bool)
  enqueue check op_type world_id actor_type actor_user_id key = do
    existing ← gets (λ s. get_by_idempotency_key s.engine op_type key)
    or_create existing check op_type world_id actor_type actor_user_id key

  -- `enqueue_start` checks the gate, as `start` does before its operation
  unfoldable pub enqueue_start :
      String → ActorType → Option String → String → Exec (Operation × Bool)
  enqueue_start world_id actor_type actor_user_id key =
      enqueue (precheck host world_id) OperationType.start world_id actor_type actor_user_id key

  unfoldable pub enqueue_stop :
      String → ActorType → Option String → String → Exec (Operation × Bool)
  enqueue_stop world_id actor_type actor_user_id key =
      enqueue (world world_id >> pure tt) OperationType.stop world_id actor_type actor_user_id key

  unfoldable pub enqueue_kill :
      String → ActorType → Option String → String → Exec (Operation × Bool)
  enqueue_kill world_id actor_type actor_user_id key =
      enqueue (world world_id >> pure tt) OperationType.kill world_id actor_type actor_user_id key

  -- the method of a claimed operation
  unfoldable pub of_type : OperationType → String → String → Exec String
  of_type OperationType.start world_id op_id = start_claimed host world_id op_id
  of_type OperationType.stop world_id op_id = stop_claimed host world_id op_id
  of_type _ world_id op_id = kill_claimed host world_id op_id

  unfoldable pub of_world : Operation → Option String → Exec String
  of_world row none = raise (lifecycle "operation is missing a world id")
  of_world row (some world_id) = of_type row.op_type world_id row.op_id

  unfoldable pub execute : Operation → Exec String
  execute row = of_world row row.world_id

  unfoldable pub fail_current : Option Operation → Raised → Exec (Unit {0})
  fail_current none e = pure tt
  fail_current (some row) e =
      if terminal row.status
      then pure tt
      else (transition_operation host row.op_id OperationStatus.failed (record plain {
        error_code = some "OP_EXECUTION_FAILED";
        message = some (message_of e);
      })
          >> pure tt)

  -- except Exception as exc: an operation that has not ended is failed
  unfoldable pub executed_badly : String → Raised → Exec (Unit {0})
  executed_badly op_id e = gets (λ s. get s.engine op_id) >>= λ current. fail_current current e

  -- the execution of a claimed operation
  unfoldable pub run_claimed : Operation → Exec (Unit {0})
  run_claimed row = catch (execute row >> pure tt) (executed_badly row.op_id)

  -- what a claim gives: the operation is executed, and its identifier is kept
  unfoldable pub claimed_one : Option Operation → Exec (List String)
  claimed_one none = pure []
  claimed_one (some row) = run_claimed row >> pure (row.op_id ∷ [])

  unfoldable pub dispatch_one : Operation → Exec (List String)
  dispatch_one row = claim_operation host row.op_id >>= λ claimed. claimed_one claimed

  -- a world that is seen already, or that has an active operation, waits
  abbrev pub of_seen : Option String → List String → Bool
  of_seen none seen = false
  of_seen (some world_id) seen = contains seen world_id

  abbrev pub see : Option String → List String → List String
  see none seen = seen
  see (some world_id) seen = world_id ∷ seen

  unfoldable pub busy : Option String → String → Exec Bool
  busy none op_id = pure false
  busy (some world_id) op_id = gets (λ s. has_active_operation s.engine world_id op_id)

  unfoldable pub turn : Bool → Operation → Exec (List String)
  turn seen row = do
    waits ← if seen then pure true else busy row.world_id row.op_id
    if waits then pure [] else dispatch_one row

  unfoldable pub dispatch_each : List String → List Operation → Exec (List String)
  dispatch_each seen [] = pure []
  dispatch_each seen (row ∷ rows) = do
    first ← turn (of_seen row.world_id seen) row
    rest ← dispatch_each (see row.world_id seen) rows
    pure (first ++ rest)

  -- `dispatch_queued_operations`, but for the mutations of worlds that it dispatches at its end
  unfoldable pub dispatch_lifecycle_operations : Exec (List String)
  dispatch_lifecycle_operations = do
    queued ← gets (λ s.
        list_queued s.engine (OperationType.start ∷ OperationType.stop ∷ OperationType.kill ∷ []))
    dispatch_each [] queued
