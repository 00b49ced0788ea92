-- ===== src/Worlds/Launch.antt =====
-- The gate, the console and the session of a start (app/services/worlds.py).
use Prim.Native.String.{◌++◌ as concat}
use mcmanager.Common.{
  ℕ, String, string_eq, Bool, false, not, ◌&&◌, ◌||◌, Option, none, some, List, [], ◌∷◌, ◌++◌, ◌==◌,
  nat_eq, any, lookup, if◌then◌else◌,
}
use mcmanager.Domain.Values.{WorldState, world_state_eq, OperationType, ActorType, EulaState}
use mcmanager.Domain.Lifecycle.{ordinary}
use mcmanager.Operations.Rows.{OperationInput, text}
use mcmanager.Operations.Milestones.{Milestone, plain}
use mcmanager.Worlds.Store.{WorldRow, ProcessHandle, Services, LaunchContext, GateResult, Host}
use mcmanager.Worlds.Exec.{
  Raised, world_conflict, lifecycle, Exec, pure, raise, gets, ask, ask_or_raise, modify, ◌>>=◌,
  ◌>>◌, raise_if,
}
use mcmanager.Worlds.State.{world, set_world_state}

-- the states in which a start is refused
abbrev pub is_up : WorldState → Bool
is_up state =
    state == WorldState.starting || state == WorldState.running || state == WorldState.stopping

abbrev pub stage : String → Milestone
stage name = record plain { checkpoint = some (("stage", text name) ∷ []) }

abbrev pub or_text : Option String → String → String
or_text none default = default
or_text (some t) default = if t == "" then default else t

abbrev pub request_of :
    OperationType → String → ActorType → Option String → Option String → OperationInput
request_of op_type world_id actor_type actor_user_id key = record {
  op_type = op_type;
  actor_type = actor_type;
  world_id = some world_id;
  actor_user_id = actor_user_id;
  idempotency_key = key;
  data_json = none;
  compensates_operation_id = none;
}

abbrev pub eula_refused : GateResult → Bool
eula_refused gate = is_eula gate.error_code
  where
    is_eula : Option String → Bool
    is_eula none = false
    is_eula (some code) = code == "EULA_NOT_ACCEPTED"

abbrev pub gate_message : GateResult → Raised
gate_message gate = lifecycle (concat (or_none gate.error_code) (concat ": " (or_none gate.detail)))
  where
    or_none : Option String → String
    or_none none = "None"
    or_none (some t) = t

abbrev no_eula : String → GateResult
no_eula detail = record {
  passed = false;
  error_code = some "EULA_NOT_ACCEPTED";
  detail = some detail;
}

module _ (host : Host) where
  unfoldable pub with_runtime : WorldRow → Option String → Exec LaunchContext
  with_runtime row none = raise (lifecycle "java runtime missing")
  with_runtime row (some path) = ask_or_raise (λ n. host.launch_context n row path)

  -- `_launch_context`; the paths and the arguments are the port's
  unfoldable pub launch_context : WorldRow → Exec LaunchContext
  launch_context row =
      gets (λ s. lookup row.java_runtime_id s.java_runtimes) >>= λ path. with_runtime row path

  abbrev pub audited : String → Services → Bool
  audited world_id s = any (λ (a : String × String). a.0 == world_id) s.eula_audits

  unfoldable pub gated : WorldRow → LaunchContext → EulaState → Exec GateResult
  gated row context EulaState.accepted = do
    there ← gets (audited row.world_id)
    if there
        then ask_or_raise (λ n. host.validate_launch n context)
        else pure (no_eula "EULA acceptance has not been audited")
  gated row context _ = pure (no_eula "eula.txt not accepted")

  -- `_validate_launch`
  unfoldable pub validate_launch : WorldRow → LaunchContext → Exec GateResult
  validate_launch row context =
      ask_or_raise (λ n. host.detect_eula n context.world_dir) >>= λ state. gated row context state

  -- `_provision_rcon`
  unfoldable pub provision_rcon : LaunchContext → Exec (ℕ × String)
  provision_rcon context = do
    password ← ask host.token_urlsafe
    ask_or_raise (λ n. host.write_properties n context password)
    pure (context.rcon_port, password)

  unfoldable pub store_rcon_secret : ℕ → String → Exec (Option String)
  store_rcon_secret rcon_port password =
      if not (rcon_port == 0) && not (password == "")
      then (ask_or_raise (λ n. host.store_secret n password) >>= λ id. pure (some id))
      else pure none

  -- `_open_session`
  unfoldable pub open_session :
      WorldRow → ProcessHandle → List String → ℕ → String → String → Exec (Unit {0})
  open_session row handle argv rcon_port password session_id = do
    secret_id ← store_rcon_secret rcon_port password
    now ← ask host.clock
    modify (λ s. record s {
      sessions =
          s.sessions
          ++ record {
            session_id = session_id;
            world_id = row.world_id;
            started_at = now;
            ended_at = none;
            end_reason = none;
            rcon_secret_id = secret_id;
            port_used = row.port;
            java_runtime_id = row.java_runtime_id;
            launched = handle;
            launch_marker = host.launch_marker argv;
            rcon_port = rcon_port;
          }
            ∷ [];
    })

  abbrev pub set_state : String → WorldState → Exec (Unit {0})
  set_state world_id state = set_world_state host world_id state ordinary

  -- the gate before the operation
  unfoldable pub precheck : String → Exec (Unit {0})
  precheck world_id = do
    row ← world world_id
    raise_if (is_up row.state) world_conflict
    context ← launch_context row
    gate ← validate_launch row context
    if gate.passed then pure tt else (do
      if eula_refused gate then set_state world_id WorldState.eula_required else pure tt
      raise (gate_message gate))
