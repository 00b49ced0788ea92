-- ===== src/Worlds/Requests.antt =====
-- Requests to the driver of app/services/worlds.py, from any number of callers in any order: a method
-- that raises leaves what it has committed.
use mcmanager.Common.{String, string_eq, Bool, Option, List, [], ◌∷◌, sym, subst}
use mcmanager.Domain.Values.{ActorType}
use mcmanager.Domain.Lifecycle.{intent_eq}
use mcmanager.Operations.Endings.{IsAudited}
use mcmanager.Operations.Audited.{IsAudited-once}
use mcmanager.Worlds.Store.{Services, Host}
use mcmanager.Worlds.Start.{start}
use mcmanager.Worlds.Stop.{stop, kill}
use mcmanager.Worlds.Dispatch.{
  enqueue_start, enqueue_stop, enqueue_kill, dispatch_lifecycle_operations,
}
use mcmanager.Worlds.Supervisor.{poll_running, reconcile}
use mcmanager.Worlds.Steps.{Steps, Steps-refl, Steps-trans}
use mcmanager.Worlds.Kept.Stop.{start-Keeps, stop-Keeps, kill-Keeps}
use mcmanager.Worlds.Kept.Dispatch.{
  enqueue_start-Keeps, enqueue_stop-Keeps, enqueue_kill-Keeps, dispatch-Keeps,
}
use mcmanager.Worlds.Eula.{accept_eula}
use mcmanager.Worlds.Kept.Eula.{accept_eula-Keeps}
use mcmanager.Worlds.Kept.Boot.{poll_running-Keeps, reconcile-Keeps}
use mcmanager.Worlds.Refines.{Steps-IsKept}

pub data Request : Type 0 where
  starts : String → ActorType → Option String → Bool → Request
  stops kills : String → ActorType → Option String → Request
  queues_start queues_stop queues_kill : String → ActorType → Option String → String → Request
  accepts : String → String → Bool → Request
  dispatches polls reconciles : Request

module _ (host : Host) where
  abbrev pub handle : Request → Services → Services
  handle (starts world_id actor by allow) s = (start host world_id actor by allow s).1
  handle (stops world_id actor by) s = (stop host world_id actor by s).1
  handle (kills world_id actor by) s = (kill host world_id actor by s).1
  handle (queues_start world_id actor by key) s = (enqueue_start host world_id actor by key s).1
  handle (queues_stop world_id actor by key) s = (enqueue_stop host world_id actor by key s).1
  handle (queues_kill world_id actor by key) s = (enqueue_kill host world_id actor by key s).1
  handle (accepts world_id by accepted) s = (accept_eula host world_id by accepted s).1
  handle dispatches s = (dispatch_lifecycle_operations host s).1
  handle polls s = (poll_running host s).1
  handle reconciles s = (reconcile host s).1

  unfoldable pub serve : List Request → Services → Services
  serve [] s = s
  serve (r ∷ requests) s = serve requests (handle r s)

  handle-Steps : (r : Request) (s : Services) → Steps s (handle r s)
  handle-Steps (starts world_id actor by allow) s =
      (start-Keeps host (Steps s) (Steps-IsKept host s) world_id actor by allow).at s (Steps-refl s)
  handle-Steps (stops world_id actor by) s =
      (stop-Keeps host (Steps s) (Steps-IsKept host s) world_id actor by).at s (Steps-refl s)
  handle-Steps (kills world_id actor by) s =
      (kill-Keeps host (Steps s) (Steps-IsKept host s) world_id actor by).at s (Steps-refl s)
  handle-Steps (queues_start world_id actor by key) s =
      (enqueue_start-Keeps host (Steps s) (Steps-IsKept host s) world_id actor by key).at s
        (Steps-refl s)
  handle-Steps (queues_stop world_id actor by key) s =
      (enqueue_stop-Keeps host (Steps s) (Steps-IsKept host s) world_id actor by key).at s
        (Steps-refl s)
  handle-Steps (queues_kill world_id actor by key) s =
      (enqueue_kill-Keeps host (Steps s) (Steps-IsKept host s) world_id actor by key).at s
        (Steps-refl s)
  handle-Steps (accepts world_id by accepted) s =
      (accept_eula-Keeps host (Steps s) (Steps-IsKept host s) world_id by accepted).at s
        (Steps-refl s)
  handle-Steps dispatches s =
      (dispatch-Keeps host (Steps s) (Steps-IsKept host s)).at s (Steps-refl s)
  handle-Steps polls s =
      (poll_running-Keeps host (Steps s) (Steps-IsKept host s)).at s (Steps-refl s)
  handle-Steps reconciles s =
      (reconcile-Keeps host (Steps s) (Steps-IsKept host s)).at s (Steps-refl s)

  -- Whatever the process, the console and the other ports answer, and wherever a method raises, any
  -- sequence of requests only makes calls of the operation engine, and moves each world only along
  -- transitions of the lifecycle, none of them under the acknowledgement of a crash or an error.
  pub serve-Steps : (requests : List Request) (s : Services) → Steps s (serve requests s)
  unfolding serve
  serve-Steps [] s = Steps-refl s
  serve-Steps (r ∷ requests) s =
      Steps-trans s (handle r s) (serve requests (handle r s)) (handle-Steps r s)
        (serve-Steps requests (handle r s))

  -- Through any sequence of requests the audit log keeps exactly one record of each terminal
  -- operation, which agrees with its row, and no record of any other operation.
  pub serve-IsAudited :
      (requests : List Request) (s : Services)
      → IsAudited s.engine
      → IsAudited (serve requests s).engine
  serve-IsAudited requests s h =
      let steps = serve-Steps requests s in
      subst IsAudited (sym steps.ran) (IsAudited-once steps.calls s.engine steps.proper h)
