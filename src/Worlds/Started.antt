-- ===== src/Worlds/Started.antt =====
-- What `start` of app/services/worlds.py has done when it returns.
use mcmanager.Common.{
  ℕ, String, string_eq, Bool, true, false, ◌&&◌, ◌||◌, none, List, [], ◌∷◌, ◌++◌, ◌==◌, nat_eq,
  option_eq, ◌≡◌, refl, any, beq_refl, ok, subst,
}
use mcmanager.Domain.Values.{WorldState, OperationStatus}
use mcmanager.Domain.Lifecycle.{ordinary}
use mcmanager.Operations.Milestones.{Milestone, transition}
use mcmanager.Worlds.Store.{WorldRow, RuntimeSession, ProcessHandle, LaunchContext, Services, Host}
use mcmanager.Worlds.Exec.{Raised, Exec, is_lifecycle, modify, ask}
use mcmanager.Worlds.Exec.Keeps.{Keeps, Timeless, keeps_rules}
use mcmanager.Worlds.Exec.Leads.{
  Leads, Outcome, Leads-bind, Leads-catch, Leads-Keeps, Leads-pure, Leads-raise, Leads-if,
  Leads-weaken, Leads-both,
}
use mcmanager.Worlds.State.{world, set_world_state, write_transition, transition_operation}
use mcmanager.Worlds.Start.{
  attach_log_sink, admitted, launched, start_body, start_broken, start_failed, start_claimed,
}
use mcmanager.Worlds.Launch.{open_session, store_rcon_secret}
use mcmanager.Worlds.Kept.Readiness.{await_readiness-Keeps}
use mcmanager.Worlds.Outcomes.{InState, Anywhere, anywhere, world-Found, set_world_state-InState}
use mcmanager.Worlds.Steps.{world_at-id}
use mcmanager.Worlds.Stopped.{engine_kept, Leads-and}
use mcmanager.Worlds.Ends.{present, start_body-completed}
use mcmanager.Worlds.Stable.{Present, HasStatus}
use mcmanager.Worlds.Kept.Start.{precheck-Keeps}

pub any_last :
    {A : Type 0} (f : A → Bool) (xs : List A) (x : A) → f x ≡ true → any f (xs ++ x ∷ []) ≡ true
any_last f [] x h = rw h refl
any_last f (y ∷ xs) x h = or_true (f y) (any_last f xs x h)
  where
    or_true : (b : Bool) {c : Bool} → c ≡ true → (b || c) ≡ true
    or_true true h = refl
    or_true false h = h

module _ (host : Host) (w : String) where
  abbrev pub is_session : String → RuntimeSession → Bool
  is_session id r = r.session_id == id && (r.world_id == w && r.ended_at == none)

  -- a session of the world is there, and is open
  abbrev pub HasOpen : String → Services → Type 0
  HasOpen id s = any (is_session id) s.sessions ≡ true

  open_session-HasOpen :
      (row : WorldRow) (handle : ProcessHandle) (argv : List String) (port : ℕ)
      (password id : String)
      → row.world_id ≡ w
      → Leads Anywhere
          (open_session host row handle argv port password id)
          (λ _. HasOpen id)
          Anywhere
  unfolding open_session ask modify
  open_session-HasOpen row handle argv port password id h =
      Leads-bind _ _ (anywhere (store_rcon_secret host port password)) (λ secret.
        Leads-bind _ _ (anywhere (ask host.clock)) (λ now. record {
          at = λ s _.
              any_last (is_session id) s.sessions _
                (rw (beq_refl id) (rw h (rw (beq_refl w) refl)));
        }))

  HasOpen-write :
      (id world_id : String) (moved : _) (now : ℕ)
      → Keeps (HasOpen id) (modify (write_transition world_id moved now ordinary))
  unfolding modify write_transition
  HasOpen-write id world_id moved now = record { at = λ s h. h }

  HasOpen-Timeless : (id : String) → Timeless (HasOpen id)
  HasOpen-Timeless id s step slept p q h = h

  HasOpen-world : (id : String) → Keeps (HasOpen id) (world w)
  unfolding world
  HasOpen-world id = search keeps_rules

  HasOpen-state :
      (id : String) (state : WorldState)
      → Keeps (HasOpen id) (set_world_state host w state ordinary)
  unfolding set_world_state
  HasOpen-state id state =
      search (keeps_rules, HasOpen-Timeless, HasOpen-world, HasOpen-write) depth 14

  HasOpen-attach :
      (id : String) (handle : ProcessHandle) → Keeps (HasOpen id) (attach_log_sink host handle)
  unfolding attach_log_sink
  HasOpen-attach id handle = search (keeps_rules, HasOpen-Timeless) depth 8

  -- the world runs with this session
  abbrev pub Runs : String → Services → Type 0
  Runs id s = InState w WorldState.running s × HasOpen id s

  Runs-transition :
      (id j : String) (status : OperationStatus) (m : Milestone)
      → Keeps (Runs id) (transition_operation host j status m)
  unfolding transition_operation
  Runs-transition id j status m = record {
    at = λ s h.
        engine_kept host w (Runs id) (λ s e h. h)
          (transition j status m (host.identifier s.step) (host.clock s.step) s.engine) s h;
  }

  -- what is launched is of this world
  OfWorld : WorldRow × LaunchContext → Services → Type 0
  OfWorld c s = c.0.world_id ≡ w

  admitted-OfWorld : (j : String) → Leads Anywhere (admitted host w j) OfWorld Anywhere
  unfolding admitted OfWorld
  admitted-OfWorld j = Leads-bind _ _ (anywhere _) (λ _. Leads-bind _ _ (world-Found host w) (λ row.
      Leads-bind {Q = λ _ _. row.world_id ≡ w} _ _
        (Leads-weaken _ (of_row row _) (λ s found. world_at-id w s.worlds found) (λ a s h. h)
          (λ s h. tt))
        (λ _. Leads-bind {Q = λ _ _. row.world_id ≡ w} _ _ (of_row row _) (λ context.
          Leads-bind {Q = λ _ _. row.world_id ≡ w} _ _ (of_row row _) (λ gate.
            Leads-bind {Q = λ _ _. row.world_id ≡ w} _ _ (of_row row _)
              (λ _. Leads-pure (row, context) (λ s h. h)))))))
    where
      of_row :
          {A : Type 0} (row : WorldRow) (m : Exec A)
          → Leads (λ s. row.world_id ≡ w) m (λ a s. row.world_id ≡ w) Anywhere
      of_row row m =
          Leads-weaken m (Leads-Keeps m (record { at = λ s h. h })) (λ s h. h) (λ a s h. h)
            (λ s h. tt)

  stays_open :
      {A : Type 0} (id : String) (m : Exec A)
      → Keeps (HasOpen id) m
      → Leads (HasOpen id) m (λ a. HasOpen id) Anywhere
  stays_open id m k = Leads-weaken m (Leads-Keeps m k) (λ s h. h) (λ a s h. h) (λ s h. tt)

  launched-HasOpen :
      (j : String) (row : WorldRow) (context : LaunchContext)
      → row.world_id ≡ w
      → Leads Anywhere (launched host w j row context) (λ p. HasOpen p.1) Anywhere
  unfolding launched
  launched-HasOpen j row context h = Leads-bind _ _ (anywhere _) (λ rcon.
      Leads-bind _ _ (anywhere _) (λ argv. Leads-bind _ _ (anywhere _) (λ id.
        Leads-bind _ _ (anywhere _) (λ _. Leads-bind _ _ (anywhere _) (λ _.
          Leads-bind _ _ (anywhere _) (λ result. Leads-bind _ _ (anywhere _) (λ handle.
            Leads-bind _ _ (open_session-HasOpen row handle argv rcon.0 rcon.1 id h) (λ _.
              Leads-bind _ _ (stays_open id _ (HasOpen-attach id handle))
                (λ _. Leads-pure (handle, id, rcon.0, rcon.1) (λ s k. k))))))))))

  given :
      {A : Type 0} {C : Type 0} {Q : A → Services → Type 0} (m : Exec A)
      → (C → Leads Anywhere m Q Anywhere)
      → Leads (λ s. C) m Q Anywhere
  given m k = record { at = λ s c. (k c).at s tt }

  start_body-Runs : (j : String) → Leads Anywhere (start_body host w j) Runs Anywhere
  unfolding start_body OfWorld
  start_body-Runs j = Leads-bind _ _ (admitted-OfWorld j) (λ checked. given _ (λ h.
      Leads-bind _ _ (launched-HasOpen j checked.0 checked.1 h) (λ process.
        Leads-bind _ _
          (stays_open process.1 _ (
            await_readiness-Keeps host _ (HasOpen-Timeless process.1) checked.0 process.0 process.2
              process.3))
          (λ level.
            Leads-bind {Q = λ _. Runs process.1} _ _
              (Leads-weaken _
                (Leads-both _ (set_world_state-InState host w WorldState.running ordinary)
                  (HasOpen-state process.1 WorldState.running))
                (λ s h. h) (λ a s (p, q). (q, p)) (λ s h. tt))
              (λ _.
                Leads-bind _ _
                  (Leads-weaken _
                    (Leads-Keeps _ (Runs-transition process.1 j OperationStatus.completed _))
                    (λ s h. h) (λ a s h. h) (λ s h. tt))
                  (λ _. Leads-pure process.1 (λ s h. h)))))))

  -- the handlers of a start that has failed raise
  start_broken-raises :
      {Q : String → Services → Type 0} (j : String) (e : Raised)
      → Leads Anywhere (start_broken host w j e) Q Anywhere
  unfolding start_broken
  start_broken-raises j e =
      Leads-if (is_lifecycle e) _ _ (λ _. Leads-raise e (λ s h. h))
        (λ _.
          Leads-bind _ _ (anywhere _)
            (λ _. Leads-bind _ _ (anywhere _) (λ _. Leads-raise _ (λ s h. h))))

  start_failed-raises :
      {Q : String → Services → Type 0} (j : String) (e : Raised)
      → Leads Anywhere (start_failed host w j e) Q Anywhere
  unfolding start_failed
  start_failed-raises j Raised.start_timeout = Leads-bind _ _ (anywhere _) (λ _.
      Leads-bind _ _ (anywhere _)
        (λ _. Leads-bind _ _ (anywhere _) (λ _. Leads-raise _ (λ s h. h))))
  start_failed-raises j e = start_broken-raises j e

  -- how a start has returned
  abbrev pub Started : String → String → Services → Type 0
  Started j id s = Runs id s × HasStatus j OperationStatus.completed s

  start_claimed-Started :
      (j : String) → Leads (Present j) (start_claimed host w j) (Started j) Anywhere
  unfolding start_claimed
  start_claimed-Started j =
      Leads-bind _ _
        (Leads-weaken _ (Leads-Keeps _ (precheck-Keeps host _ (present host j) w)) (λ s h. h)
          (λ a s h. h) (λ s h. tt))
        (λ _.
          Leads-catch {F = Anywhere} _ _
            (Leads-weaken _ (Leads-and _ (start_body-Runs j) (start_body-completed host j w))
              (λ s h. (tt, h)) (λ a s h. h) (λ s h. tt))
            (λ e. start_failed-raises j e))

  -- A start that returns a session has left the world running with this session open, and its operation
  -- completed. The process, the console and the other ports may answer anything.
  pub start_ready :
      (j : String) (s : Services) (id : String) (t : Services)
      → Present j s
      → start_claimed host w j s ≡ (ok id, t)
      → Started j id t
  start_ready j s id t h returned =
      subst (Outcome (Started j) Anywhere) returned ((start_claimed-Started j).at s h)
