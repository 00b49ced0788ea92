-- ===== src/Operations/Examples.antt =====
-- Runs of the operation engine on concrete calls (app/services/operations.py).
use mcmanager.Common.{
  all, ok, ◌⊎◌, string_eq, true, false, none, some, List, [], ◌∷◌, ◌≡◌, refl, nat_eq,
}
use mcmanager.Domain.Values.{
  OperationType-discrete, OperationStatus, OperationType, start, backup, stop, completed, user,
  system,
}
use mcmanager.Operations.Rows.{Operation, OperationInput, row_at}
use mcmanager.Operations.Engine.{get_by_idempotency_key, Engine}
use mcmanager.Operations.Milestones.{plain}
use mcmanager.Operations.Calls.{Call, create, claim, transit, run}
use mcmanager.Operations.Terminal.{terminal_forever}
use mcmanager.Operations.Endings.{IsAudited, endings}
use mcmanager.Operations.Audited.{IsAudited-once}
use mcmanager.Operations.Policy.{apply_conflict_policy, policy_for, admit}
use mcmanager.Operations.Compatible.{may_share, policy_compatible}
use mcmanager.Operations.Idempotent.{replayed_for_ever}
use mcmanager.Operations.Methods.{create_with_replay}
use mcmanager.Operations.Activity.{Sole}
use mcmanager.Operations.Exclusive.{one_active_operation}

abbrev empty_engine : Engine
empty_engine = record {
  operations = [];
  audits = [];
  notifications = [];
  usernames = ("u1", "alice") ∷ [];
  pending_checkpoints = [];
  progress_cache = [];
  published = [];
  realtime = true;
  notifies = true;
}

abbrev request : OperationType → OperationInput
request op_type = record {
  op_type = op_type;
  actor_type = user;
  world_id = some "w1";
  actor_user_id = some "u1";
  idempotency_key = some "k1";
  data_json = none;
  compensates_operation_id = none;
}

-- a start that runs, a backup that waits for the world, and the end of the start
abbrev calls : List Call
calls =
    create (request start) OperationStatus.queued false "op1" 10
    ∷ claim "op1" 11
    ∷ create (request backup) OperationStatus.queued false "op2" 12
    ∷ claim "op2" 13
    ∷ transit "op1" completed plain "n1" 14
    ∷ claim "op2" 15
    ∷ []

IsAudited-once_example : IsAudited (run calls empty_engine)
unfolding row_at endings
IsAudited-once_example =
    IsAudited-once calls empty_engine (refl, (tt, (refl, (tt, (tt, (tt, tt))))))
      (record { distinct = tt; once = λ j. refl })

one_active_operation_example : Sole (run calls empty_engine).operations
unfolding row_at
one_active_operation_example =
    one_active_operation calls empty_engine (refl, (tt, (refl, (tt, ((λ q. cc q), (tt, tt))))))
      (λ w j k a b. cc a)

abbrev finished : Operation
finished = record {
  op_id = "op0";
  op_type = stop;
  world_id = some "w1";
  actor_type = system;
  actor_user_id = none;
  idempotency_key = none;
  status = completed;
  checkpoint = none;
  attempt = 1;
  compensates_operation_id = none;
  intent_at = 1;
  started_at = some 2;
  finished_at = some 3;
  error_code = none;
  message = none;
  data_json = none;
  created_at = 1;
  updated_at = 3;
}

abbrev with_finished : Engine
with_finished = record empty_engine { operations = finished ∷ [] }

terminal_forever_example : row_at "op0" (run calls with_finished).operations ≡ some finished
unfolding row_at
terminal_forever_example = terminal_forever "op0" finished calls with_finished refl refl

policy_compatible_example :
    (all (may_share backup) (finished ∷ []) ≡ true)
    ⊎ ((backup ≡ OperationType.cleanup) × (OperationStatus.queued ≡ OperationStatus.queued))
unfolding apply_conflict_policy policy_for OperationType-discrete
policy_compatible_example =
    policy_compatible (request backup) (finished ∷ []) OperationStatus.queued
      (admit OperationStatus.queued) refl

abbrev keyed : Engine
keyed = record empty_engine {
  operations = record finished { op_type = start; idempotency_key = some "k1" } ∷ [];
}

replayed_for_ever_example :
    (row : Operation) × (create_with_replay
        (request start)
        OperationStatus.queued
        false
        "op9"
        20
        (run calls keyed)
      ≡ ok (run calls keyed, row, true))
    × (row.op_id ≡ "op0")
unfolding get_by_idempotency_key OperationType-discrete
replayed_for_ever_example =
    replayed_for_ever (request start) "k1" "op0" calls keyed OperationStatus.queued false "op9" 20
      (tt, tt) refl refl
