-- ===== src/Domain/Values.antt =====
-- The closed enumerations of app/domain/value_objects.py that the modelled services use.
use mcmanager.Common.{ℕ, Eq, from_discrete}

pub data WorldState : Type 0 where
  off queued starting running stopping restoring backing_up crashed error eula_required : WorldState

unfoldable pub WorldState-discrete : Discrete WorldState
WorldState-discrete = hlevel

instance abbrev pub world_state_eq : Eq WorldState
world_state_eq = from_discrete WorldState-discrete

pub data OperationType : Type 0 where
  create_world start stop kill backup restore cleanup sync : OperationType
  config_edit crash_detected delete_world : OperationType

unfoldable pub OperationType-discrete : Discrete OperationType
OperationType-discrete = hlevel

instance abbrev pub operation_type_eq : Eq OperationType
operation_type_eq = from_discrete OperationType-discrete

pub data OperationStatus : Type 0 where
  created queued validating running completed failed cancelled timed_out : OperationStatus

unfoldable pub OperationStatus-discrete : Discrete OperationStatus
OperationStatus-discrete = hlevel

instance abbrev pub operation_status_eq : Eq OperationStatus
operation_status_eq = from_discrete OperationStatus-discrete

pub data ActorType : Type 0 where
  user system : ActorType

pub data EndReason : Type 0 where
  graceful_stop forced_stop crashed emergency_stop reconciled_missing : EndReason

pub data EulaState : Type 0 where
  not_present unaccepted accepted : EulaState

pub data ServerType : Type 0 where
  vanilla paper fabric forge : ServerType

pub data ServerReadinessLevel : Type 0 where
  process_alive port_bound rcon_ready probe_ok operationally_valid : ServerReadinessLevel

unfoldable pub ServerReadinessLevel-discrete : Discrete ServerReadinessLevel
ServerReadinessLevel-discrete = hlevel

instance abbrev pub readiness_level_eq : Eq ServerReadinessLevel
readiness_level_eq = from_discrete ServerReadinessLevel-discrete

-- `ServerReadinessLevel.rank`
abbrev pub rank : ServerReadinessLevel → ℕ
rank process_alive = 0
rank port_bound = 1
rank rcon_ready = 2
rank probe_ok = 3
rank operationally_valid = 4

pub data ExitClass : Type 0 where
  running graceful forced crashed reconciled_missing spawn_failed : ExitClass
