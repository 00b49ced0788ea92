-- ===== src/Worlds/Store.antt =====
-- The tables that app/services/worlds.py reads and writes, and the ports that it calls: the process
-- adapter, the Minecraft port, the secrets, the clock and the identifiers. A port is asked at a step,
-- which counts the calls, and may answer anything at each; an error of a port is its message.
use mcmanager.Common.{ℕ, String, Bool, Option, List, Result}
use mcmanager.Domain.Values.{
  WorldState, EndReason, EulaState, ServerType, ServerReadinessLevel, ExitClass,
}
use mcmanager.Domain.Lifecycle.{WorldTransitionIntent}
use mcmanager.Domain.World.{WorldStateChanged}
use mcmanager.Operations.Rows.{Fields}
use mcmanager.Operations.Engine.{Engine}

-- A row of `world_instances`. The columns that the driver only hands on are in `columns`.
pub record WorldRow : Type 0 where
  pub world_id : String
  pub state : WorldState
  pub pre_backup_state : Option WorldState
  pub server_type : ServerType
  pub port : ℕ
  pub java_runtime_id : String
  pub columns : Fields
  pub metadata_version : ℕ
  pub deleted_at : Option ℕ
  pub deleted_by : Option String
  pub updated_at : ℕ

-- `ProcessHandle`
pub record ProcessHandle : Type 0 where
  pub pid : ℕ
  pub spawn_epoch : ℕ

-- A row of `runtime_sessions`; the snapshot holds what a later probe looks for.
pub record RuntimeSession : Type 0 where
  pub session_id : String
  pub world_id : String
  pub started_at : ℕ
  pub ended_at : Option ℕ
  pub end_reason : Option EndReason
  pub rcon_secret_id : Option String
  pub port_used : ℕ
  pub java_runtime_id : String
  pub launched : ProcessHandle
  pub launch_marker : String
  pub rcon_port : ℕ

-- What is published when the state of a world changes, to `events` and to the world's stream.
pub record StatePublished : Type 0 where
  pub stream : Option String
  pub event : WorldStateChanged
  pub reason : WorldTransitionIntent

-- The durable state, with the calls of ports so far and the milliseconds slept so far. A row of
-- `eula_audits` is an audit record of the kind `world_eula_accepted`.
pub record Services : Type 0 where
  pub engine : Engine
  pub worlds : List WorldRow
  pub sessions : List RuntimeSession
  pub java_runtimes : List (String × String)
  pub eula_audits : List (String × String)
  pub published : List StatePublished
  pub realtime : Bool
  pub logs : Bool
  pub audit : Bool
  pub step : ℕ
  pub slept : ℕ

-- `LaunchContext`, as far as the driver looks into it
pub record LaunchContext : Type 0 where
  pub world_dir : String
  pub java_path : String
  pub rcon_port : ℕ

-- `GateResult`
pub record GateResult : Type 0 where
  pub passed : Bool
  pub error_code : Option String
  pub detail : Option String

pub record SpawnResult : Type 0 where
  pub handle : Option ProcessHandle
  pub spawn_error : Option String

pub record ProcessStatus : Type 0 where
  pub alive : Bool
  pub exit_class : ExitClass

pub record TerminateResult : Type 0 where
  pub resolved : Bool
  pub exit_class : ExitClass

pub record ProbeResult : Type 0 where
  pub found : Bool
  pub handle : Option ProcessHandle
  pub matched_launch : Bool

-- The ports, by the step at which they are called. `none` is a `MinecraftRconError`; a command
-- answers whether its output has a text.
pub record Host : Type 0 where
  pub clock : ℕ → ℕ
  pub elapsed : ℕ → ℕ
  pub identifier : ℕ → String
  pub token_urlsafe : ℕ → String
  pub launch_context : ℕ → WorldRow → String → Result String LaunchContext
  pub launch_command : ℕ → WorldRow → LaunchContext → Result String (List String)
  pub launch_marker : List String → String
  pub write_properties : ℕ → LaunchContext → String → Result String (Unit {0})
  pub detect_eula : ℕ → String → Result String EulaState
  pub accept_eula : ℕ → WorldRow → String → Result String (Unit {0})
  pub validate_launch : ℕ → LaunchContext → Result String GateResult
  pub spawn : ℕ → List String → String → Result String SpawnResult
  pub tail : ℕ → ProcessHandle → Result String (Unit {0})
  pub poll : ℕ → ProcessHandle → Result String ProcessStatus
  pub probe : ℕ → String → Option RuntimeSession → Result String ProbeResult
  pub write_stdin : ℕ → ProcessHandle → String → Result String Bool
  pub terminate : ℕ → ProcessHandle → ℕ → Result String TerminateResult
  pub close_handle : ℕ → ProcessHandle → Result String (Unit {0})
  pub store_secret : ℕ → String → Result String String
  pub read_secret : ℕ → String → Result String String
  pub rcon_connect : ℕ → Option (Unit {0})
  pub rcon_ping : ℕ → Option Bool
  pub rcon_command : ℕ → String → Option Bool
  pub target_level : ServerType → ServerReadinessLevel
  pub paper_api : ServerType → Bool
  pub readiness : ℕ → ServerType → ℕ → Bool → Bool → Result String ServerReadinessLevel
