-- ===== src/Worlds/Kept/Boot.antt =====
-- The supervisor and the reconciliation at boot (app/services/worlds.py).
use mcmanager.Common.{String, Option, none, some, List, [], ◌∷◌, ◌++◌}
use mcmanager.Domain.Values.{WorldState}
use mcmanager.Operations.Rows.{Operation}
use mcmanager.Worlds.Store.{RuntimeSession, ProcessHandle, Services, Host}
use mcmanager.Worlds.Exec.{Exec}
use mcmanager.Worlds.Exec.Keeps.{Keeps, keeps_rules, Keeps-bind, Keeps-pure}
use mcmanager.Worlds.State.{open_sessions}
use mcmanager.Worlds.Supervisor.{
  record_crash, is_alive, poll_session, each, poll_running, in_flight_start,
  incomplete_starts_without_sessions, settle_state, fail_interrupted_start, missing,
  reconcile_session, fail_one, fail_all, reconcile,
}
use mcmanager.Worlds.Kept.{IsKept, world-Keeps}
use mcmanager.Worlds.Kept.Stop.{resolve_handle-Keeps}

module _ (host : Host) (P : Services → Type 0) (kept : IsKept host P) where
  record_crash-Keeps : (world_id : String) → Keeps P (record_crash host world_id)
  unfolding record_crash
  record_crash-Keeps world_id =
      search (keeps_rules, kept.timeless, kept.creates, kept.moves) depth 12

  is_alive-Keeps : (handle : Option ProcessHandle) → Keeps P (is_alive host handle)
  unfolding is_alive
  is_alive-Keeps none = search keeps_rules
  is_alive-Keeps (some handle) = search (keeps_rules, kept.timeless) depth 8

  poll_session-Keeps : (r : RuntimeSession) → Keeps P (poll_session host r)
  unfolding poll_session
  poll_session-Keeps r =
      search
        (
          keeps_rules,
          resolve_handle-Keeps host P kept,
          is_alive-Keeps,
          kept.closes,
          kept.states,
          record_crash-Keeps,
        )
        depth 20

  each-Keeps :
      (f : RuntimeSession → Exec (List String))
      → ((r : RuntimeSession) → Keeps P (f r))
      → (rows : List RuntimeSession) → Keeps P (each host f rows)
  unfolding each
  each-Keeps f k [] = search keeps_rules
  each-Keeps f k (r ∷ rows) = Keeps-bind (f r) _ (k r) (λ first.
      Keeps-bind (each host f rows) _ (each-Keeps f k rows) (λ rest. Keeps-pure (first ++ rest)))

  pub poll_running-Keeps : Keeps P (poll_running host)
  unfolding poll_running open_sessions
  poll_running-Keeps = search (keeps_rules, each-Keeps, poll_session-Keeps) depth 8

  settle_state-Keeps :
      (world_id : String) (state : WorldState) → Keeps P (settle_state host world_id state)
  unfolding settle_state
  settle_state-Keeps world_id WorldState.starting = kept.states _ _
  settle_state-Keeps world_id WorldState.running = kept.states _ _
  settle_state-Keeps world_id WorldState.stopping = kept.states _ _
  settle_state-Keeps world_id WorldState.queued = kept.states _ _
  settle_state-Keeps world_id _ = search keeps_rules

  fail_interrupted_start-Keeps :
      (o : Operation) (world_id : String) → Keeps P (fail_interrupted_start host o world_id)
  unfolding fail_interrupted_start
  fail_interrupted_start-Keeps o world_id =
      search (keeps_rules, world-Keeps host P kept, settle_state-Keeps, kept.moves) depth 12

  missing-Keeps : (world_id : String) (o : Option Operation) → Keeps P (missing host world_id o)
  unfolding missing
  missing-Keeps world_id none = search (keeps_rules, kept.states, record_crash-Keeps) depth 8
  missing-Keeps world_id (some o) = fail_interrupted_start-Keeps o world_id

  reconcile_session-Keeps : (r : RuntimeSession) → Keeps P (reconcile_session host r)
  unfolding reconcile_session in_flight_start
  reconcile_session-Keeps r =
      search (keeps_rules, kept.timeless, kept.states, kept.closes, missing-Keeps) depth 20

  fail_one-Keeps : (o : Operation) (w : Option String) → Keeps P (fail_one host o w)
  unfolding fail_one
  fail_one-Keeps o none = search keeps_rules
  fail_one-Keeps o (some w) = fail_interrupted_start-Keeps o w

  fail_all-Keeps : (rows : List Operation) → Keeps P (fail_all host rows)
  unfolding fail_all
  fail_all-Keeps [] = search keeps_rules
  fail_all-Keeps (o ∷ rows) =
      Keeps-bind (fail_one host o o.world_id) _ (fail_one-Keeps o o.world_id)
        (λ _. fail_all-Keeps rows)

  pub reconcile-Keeps : Keeps P (reconcile host)
  unfolding reconcile open_sessions incomplete_starts_without_sessions
  reconcile-Keeps =
      search (keeps_rules, each-Keeps, reconcile_session-Keeps, fail_all-Keeps) depth 12
