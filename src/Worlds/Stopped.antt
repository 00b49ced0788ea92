-- ===== src/Worlds/Stopped.antt =====
-- What `stop` and `kill` of app/services/worlds.py have done when they return.
use mcmanager.Common.{
  ℕ, suc, String, string_eq, false, some, List, [], ◌∷◌, nat_eq, option_eq, ◌≡◌, refl, sym, any,
  if◌then◌else◌, inl, inr, Bool-cases, Result, ok, err, subst, arith,
}
use mcmanager.Domain.Values.{WorldState, OperationStatus, EndReason}
use mcmanager.Domain.Lifecycle.{ordinary}
use mcmanager.Operations.Policy.{OperationError}
use mcmanager.Operations.Engine.{Engine}
use mcmanager.Operations.Milestones.{Milestone, transition}
use mcmanager.Worlds.Store.{WorldRow, RuntimeSession, Services, Host}
use mcmanager.Worlds.Exec.{Raised, Exec, ◌>>=◌, ◌>>◌, pure, modify, ask, gets, catch, or_raise}
use mcmanager.Worlds.Exec.Keeps.{Keeps, Timeless, keeps_rules}
use mcmanager.Worlds.Exec.Leads.{
  Leads, Outcome, Leads-bind, Leads-catch, Leads-Keeps, Leads-pure, Leads-weaken, Leads-both,
}
use mcmanager.Worlds.State.{
  world_at, world, set_world_state, write_transition, close_session, ends_session, end_sessions,
  transition_operation, engine_result,
}
use mcmanager.Worlds.Stop.{stop_body, kill_body, ended_badly, stop_claimed, kill_claimed}
use mcmanager.Worlds.Ends.{stop_body-completed, kill_body-completed, ended_badly-HasEnded}
use mcmanager.Worlds.Stable.{Present, HasStatus, HasEnded}
use mcmanager.Worlds.Outcomes.{InState, AllClosed, Anywhere, anywhere, set_world_state-InState}

and_outcome :
    {A : Type 0} (Q Q' : A → Services → Type 0) (E E' : Services → Type 0)
    (r : Result Raised A × Services)
    → Outcome Q E r
    → Outcome Q' E' r
    → Outcome (λ a s. Q a s × Q' a s) (λ s. E s × E' s) r
and_outcome Q Q' E E' (ok a, s) p q = (p, q)
and_outcome Q Q' E E' (err e, s) p q = (p, q)

pub Leads-and :
    {A : Type 0} {P P' : Services → Type 0} {Q Q' : A → Services → Type 0}
    {E E' : Services → Type 0} (m : Exec A)
    → Leads P m Q E
    → Leads P' m Q' E'
    → Leads (λ s. P s × P' s) m (λ a s. Q a s × Q' a s) (λ s. E s × E' s)
Leads-and {Q = Q} {Q' = Q'} {E = E} {E' = E'} m l k = record {
  at = λ s h. and_outcome Q Q' E E' (m s) (l.at s h.0) (k.at s h.1);
}

module _ (host : Host) (w : String) where
  ended_now :
      (reason : EndReason) (now : ℕ) (r : RuntimeSession)
      → ends_session host w (
          if ends_session host w r
          then record r { ended_at = some now; end_reason = some reason }
          else r)
        ≡ false
  ended_now reason now r = elim (Bool-cases (ends_session host w r)) [
    | inl e ↦ rw e (ground arith)
    | inr e ↦ rw e e
  ]

  none_left :
      (reason : EndReason) (now : ℕ) (rows : List RuntimeSession)
      → any (ends_session host w) (end_sessions host w reason now rows) ≡ false
  unfolding end_sessions
  none_left reason now [] = refl
  none_left reason now (r ∷ rows) = rw (ended_now reason now r) (none_left reason now rows)

  close_session-AllClosed :
      (reason : EndReason)
      → Leads Anywhere (close_session host w reason) (λ _. AllClosed host w) Anywhere
  unfolding close_session modify ask ◌>>=◌
  close_session-AllClosed reason = record {
    at = λ s h. none_left reason (host.clock s.step) s.sessions;
  }

  -- a call of the engine is seen by nothing else
  pub engine_kept :
      {A : Type 0} (P : Services → Type 0)
      → ((s : Services) (e : Engine) → P s → P (record s { engine = e; step = suc s.step }))
      → (r : Result OperationError (Engine × A)) (s : Services) → P s
      → P (engine_result host r s).1
  engine_kept P free (ok (e, a)) s h = free s e h
  engine_kept P free (err x) s h = free s s.engine h

  -- what the stop of a world reaches
  abbrev pub Off : Services → Type 0
  Off s = InState w WorldState.off s × AllClosed host w s

  Off-transition :
      (j : String) (status : OperationStatus) (m : Milestone)
      → Keeps Off (transition_operation host j status m)
  unfolding transition_operation
  Off-transition j status m = record {
    at = λ s h.
        engine_kept Off (λ s e h. h)
          (transition j status m (host.identifier s.step) (host.clock s.step) s.engine) s h;
  }

  -- a write of the worlds is not seen by the sessions
  AllClosed-write :
      (world_id : String) (moved : _) (now : ℕ)
      → Keeps (AllClosed host w) (modify (write_transition world_id moved now ordinary))
  unfolding modify write_transition
  AllClosed-write world_id moved now = record { at = λ s h. h }

  AllClosed-Timeless : Timeless (AllClosed host w)
  AllClosed-Timeless s step slept p q h = h

  AllClosed-world : Keeps (AllClosed host w) (world w)
  unfolding world
  AllClosed-world = search keeps_rules

  AllClosed-state :
      (state : WorldState) → Keeps (AllClosed host w) (set_world_state host w state ordinary)
  unfolding set_world_state
  AllClosed-state state =
      search (keeps_rules, AllClosed-Timeless, AllClosed-world, AllClosed-write) depth 14

  -- the last steps of a stop
  settle-Off :
      (reason : EndReason) (j : String) (m : Milestone)
      → Leads Anywhere
          (close_session host w reason
            >> (set_world_state host w WorldState.off ordinary
                >> (transition_operation host j OperationStatus.completed m >> pure j)))
          (λ _. Off)
          Anywhere
  settle-Off reason j m = Leads-bind _ _ (close_session-AllClosed reason) (λ _.
      Leads-bind {Q = λ _. Off} _ _
        (Leads-weaken _
          (Leads-both _ (set_world_state-InState host w WorldState.off ordinary)
            (AllClosed-state WorldState.off))
          (λ s h. h) (λ a s (p, q). (q, p)) (λ s h. tt))
        (λ _.
          Leads-bind _ _
            (Leads-weaken _ (Leads-Keeps _ (Off-transition j OperationStatus.completed m))
              (λ s h. h) (λ a s h. h) (λ s h. tt))
            (λ _. Leads-pure j (λ s h. h))))

  stop_body-Off : (j : String) → Leads Anywhere (stop_body host w j) (λ _. Off) Anywhere
  unfolding stop_body
  stop_body-Off j = Leads-bind _ _ (anywhere _) (λ _.
      Leads-bind _ _ (anywhere _) (λ _. Leads-bind _ _ (anywhere _) (λ closed. settle-Off _ j _)))

  kill_body-Off : (j : String) → Leads Anywhere (kill_body host w j) (λ _. Off) Anywhere
  unfolding kill_body
  kill_body-Off j = Leads-bind _ _ (anywhere _) (λ _. Leads-bind _ _ (anywhere _) (λ _.
      Leads-bind _ _ (anywhere _) (λ handle. Leads-bind _ _ (anywhere _) (λ _. settle-Off _ j _))))

module _ (host : Host) (w j : String) where
  -- how a stop has ended
  abbrev pub Settled : Result Raised String × Services → Type 0
  Settled r = Outcome (λ _ s. Off host w s × HasStatus j OperationStatus.completed s) (HasEnded j) r

  caught :
      (m : Exec String) (code : String)
      → Leads Anywhere m (λ _. Off host w) Anywhere
      → Leads (Present j) m (λ _. HasStatus j OperationStatus.completed) (Present j)
      → Leads
          (Present j)
          (catch m (ended_badly host j code))
          (λ _ s. Off host w s × HasStatus j OperationStatus.completed s)
          (HasEnded j)
  caught m code off completed =
      Leads-catch _ _
        (Leads-weaken _ (Leads-and _ off completed) (λ s h. (tt, h)) (λ a s h. h) (λ s h. h.1))
        (λ e. ended_badly-HasEnded host j code e)

  past_world :
      {B : Type 0} (s : Services) (row : WorldRow) (m : Exec B)
      → world_at w s.worlds ≡ some row
      → (world w >> m) s ≡ m s
  unfolding world ◌>>=◌ gets or_raise pure
  past_world s row m found = rw found refl

  stop_claimed-Settled :
      (s : Services) (row : WorldRow)
      → world_at w s.worlds ≡ some row
      → Present j s
      → Settled (stop_claimed host w j s)
  unfolding stop_claimed
  stop_claimed-Settled s row found h =
      subst Settled (sym (past_world s row _ found))
        ((caught _ "STOP_ERROR" (stop_body-Off host w j) (stop_body-completed host j w)).at s h)

  kill_claimed-Settled :
      (s : Services) (row : WorldRow)
      → world_at w s.worlds ≡ some row
      → Present j s
      → Settled (kill_claimed host w j s)
  unfolding kill_claimed
  kill_claimed-Settled s row found h =
      subst Settled (sym (past_world s row _ found))
        ((caught _ "KILL_ERROR" (kill_body-Off host w j) (kill_body-completed host j w)).at s h)

  -- Of a world that is there and an operation that is there: a stop and a kill return only with the world
  -- off, no open session of it, and the operation completed; and if they raise, the operation has ended.
  -- The process, the console and the other ports may answer anything.
  pub stop_settles :
      (s : Services) (row : WorldRow)
      → world_at w s.worlds ≡ some row
      → Present j s
      → Settled (stop_claimed host w j s) × Settled (kill_claimed host w j s)
  stop_settles s row found h =
      (stop_claimed-Settled s row found h, kill_claimed-Settled s row found h)
