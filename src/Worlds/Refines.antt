-- ===== src/Worlds/Refines.antt =====
-- The driver of app/services/worlds.py refines the lifecycle and the operation engine: whatever its
-- ports answer, it only calls the engine and moves worlds along the lifecycle.
use mcmanager.Common.{ℕ, String, Bool, List, [], ◌∷◌, ◌≡◌, refl, sym, Result, ok, err, subst}
use mcmanager.Domain.Values.{OperationStatus}
use mcmanager.Domain.Lifecycle.{ordinary, eula_acceptance}
use mcmanager.Operations.Rows.{Operation}
use mcmanager.Operations.Policy.{OperationError}
use mcmanager.Operations.Engine.{Engine}
use mcmanager.Operations.Methods.{create_with_replay}
use mcmanager.Operations.Milestones.{transition}
use mcmanager.Operations.Calls.{
  Call, create, claim, transit, run, perform, Proper, created_engine, moved_engine,
}
use mcmanager.Worlds.Store.{WorldRow, Services, Host}
use mcmanager.Worlds.Exec.{modify}
use mcmanager.Worlds.Exec.Keeps.{Keeps, Timeless, Keeps-bind, Keeps-ask, keeps_rules}
use mcmanager.Worlds.State.{
  world_at, close_session, create_operation, transition_operation, claim_operation, engine_result,
  pair_last,
}
use mcmanager.Worlds.Eula.{write_acceptance}
use mcmanager.Worlds.Launch.{open_session, store_rcon_secret}
use mcmanager.Worlds.Steps.{
  Steps, Steps-trans, Follows, Follows-refl, world_step, set_world_state-Steps,
}
use mcmanager.Worlds.Kept.{IsKept}

same_worlds :
    (s t : Services)
    → t.worlds ≡ s.worlds
    → (j : String) → Follows (world_at j s.worlds) (world_at j t.worlds)
same_worlds s t same j =
    subst (λ (rows : List WorldRow). Follows (world_at j s.worlds) (world_at j rows)) (sym same)
      (Follows-refl (world_at j s.worlds))

-- the worlds stay, and the engine is called once
call_step :
    (c : Call) (s t : Services)
    → Proper c
    → t.engine ≡ perform c s.engine
    → t.worlds ≡ s.worlds
    → Steps s t
unfolding run
call_step c s t proper called same = record {
  calls = c ∷ [];
  proper = (proper, tt);
  ran = called;
  follows = same_worlds s t same;
}

created_step :
    (host : Host) (c : Call) (s : Services) (r : Result OperationError (Engine × Operation × Bool))
    → Proper c
    → perform c s.engine ≡ created_engine s.engine r
    → Steps s (engine_result host (pair_last host r) s).1
created_step host c s (ok (t, row, replayed)) proper h = call_step c s _ proper (sym h) refl
created_step host c s (err e) proper h = call_step c s _ proper (sym h) refl

moved_step :
    (host : Host) (c : Call) (s : Services) (r : Result OperationError (Engine × Operation))
    → Proper c
    → perform c s.engine ≡ moved_engine s.engine r
    → Steps s (engine_result host r s).1
moved_step host c s (ok (t, row)) proper h = call_step c s _ proper (sym h) refl
moved_step host c s (err e) proper h = call_step c s _ proper (sym h) refl

module _ (host : Host) (s₀ : Services) where
  Steps-Timeless : Timeless (Steps s₀)
  Steps-Timeless s step slept p q h =
      Steps-trans s₀ s _ h (world_step s _ refl (λ j. Follows-refl _))

  modify-Steps :
      (f : Services → Services)
      → ((s : Services) → (f s).engine ≡ s.engine)
      → ((s : Services) → (f s).worlds ≡ s.worlds)
      → Keeps (Steps s₀) (modify f)
  unfolding modify
  modify-Steps f engine worlds = record {
    at = λ s h.
        Steps-trans s₀ s (f s) h (world_step s (f s) (engine s) (same_worlds s (f s) (worlds s)));
  }

  secret-Steps :
      (port : ℕ) (password : String) → Keeps (Steps s₀) (store_rcon_secret host port password)
  unfolding store_rcon_secret
  secret-Steps port password = search (keeps_rules, Steps-Timeless) depth 8

  -- The steps of the driver are calls of the engine and transitions of the lifecycle.
  pub Steps-IsKept : IsKept host (Steps s₀)
  unfolding write_acceptance close_session open_session create_operation transition_operation
      claim_operation perform
  Steps-IsKept = record {
    timeless = Steps-Timeless;
    states = λ world_id state. record {
      at = λ s h. Steps-trans s₀ s _ h (set_world_state-Steps host world_id state ordinary tt s);
    };
    accepts = λ world_id state. record {
      at = λ s h.
          Steps-trans s₀ s _ h (set_world_state-Steps host world_id state eula_acceptance tt s);
    };
    audits = λ world_id user. modify-Steps _ (λ s. refl) (λ s. refl);
    closes = λ world_id reason.
        Keeps-bind _ _ (Keeps-ask Steps-Timeless host.clock)
          (λ now. modify-Steps _ (λ s. refl) (λ s. refl));
    opens = λ row handle argv rcon_port password session_id.
        Keeps-bind _ _ (secret-Steps rcon_port password) (λ id.
          Keeps-bind _ _ (Keeps-ask Steps-Timeless host.clock)
            (λ now. modify-Steps _ (λ s. refl) (λ s. refl)));
    creates = λ request allow. record {
      at = λ s h. Steps-trans s₀ s _ h (
          created_step host
            (create request OperationStatus.queued allow (host.identifier s.step)
              (host.clock s.step))
            s
            (create_with_replay request OperationStatus.queued allow (host.identifier s.step)
              (host.clock s.step) s.engine)
            refl refl);
    };
    moves = λ op_id status m. record {
      at = λ s h. Steps-trans s₀ s _ h (
          moved_step host (transit op_id status m (host.identifier s.step) (host.clock s.step)) s
            (transition op_id status m (host.identifier s.step) (host.clock s.step) s.engine) tt
            refl);
    };
    claims = λ op_id. record {
      at = λ s h.
          Steps-trans s₀ s _ h (call_step (claim op_id (host.clock s.step)) s _ tt refl refl);
    };
  }
