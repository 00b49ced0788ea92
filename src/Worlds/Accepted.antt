-- ===== src/Worlds/Accepted.antt =====
-- No world starts before its EULA is accepted (app/services/worlds.py).
use mcmanager.Common.{
  ℕ, String, string_eq, Bool, true, false, ◌||◌, List, [], ◌∷◌, ◌++◌, ◌==◌, ◌≡◌, refl, sym, ◌∙◌,
  any, ok, subst,
}
use mcmanager.Domain.Values.{WorldState, OperationStatus, EulaState}
use mcmanager.Domain.Lifecycle.{WorldTransitionIntent, ordinary, eula_acceptance}
use mcmanager.Operations.Methods.{create_with_replay}
use mcmanager.Operations.Milestones.{transition, claim_queued}
use mcmanager.Worlds.Store.{WorldRow, GateResult, LaunchContext, ProcessHandle, Services, Host}
use mcmanager.Worlds.Exec.{Exec, modify}
use mcmanager.Worlds.Exec.Keeps.{Keeps, Timeless, Keeps-ask_or_raise, keeps_rules}
use mcmanager.Worlds.Exec.Leads.{
  Leads, Outcome, Leads-bind, Leads-catch, Leads-Keeps, Leads-pure, Leads-raise, Leads-gets,
  Leads-if, Leads-weaken,
}
use mcmanager.Worlds.State.{
  world, set_world_state, write_transition, close_session, create_operation, transition_operation,
  claim_operation, pair_last,
}
use mcmanager.Worlds.Start.{start_claimed}
use mcmanager.Worlds.Launch.{
  audited, gated, validate_launch, precheck, open_session, store_rcon_secret,
}
use mcmanager.Worlds.Eula.{write_acceptance}
use mcmanager.Worlds.Kept.{IsKept}
use mcmanager.Worlds.Kept.Start.{start_body-Keeps, start_failed-Keeps}
use mcmanager.Worlds.Outcomes.{InState, Anywhere, anywhere, world-Found}
use mcmanager.Worlds.Steps.{world_at-id}
use mcmanager.Worlds.Stopped.{engine_kept}

or_more : (a : Bool) {b c : Bool} → (b ≡ true → c ≡ true) → (a || b) ≡ true → (a || c) ≡ true
or_more true f h = refl
or_more false f h = f h

any_more :
    {A : Type 0} (f : A → Bool) (xs : List A) (x : A)
    → any f xs ≡ true
    → any f (xs ++ x ∷ []) ≡ true
any_more f [] x h = absurd (cc h)
any_more f (y ∷ xs) x h = or_more (f y) (any_more f xs x) h

-- a fact that the state gives
Leads-fact :
    {A : Type 0} {P : Services → Type 0} {Q : A → Services → Type 0} {E : Services → Type 0}
    {C : Type 0} (m : Exec A)
    → ((s : Services) → P s → C)
    → (C → Leads P m Q E)
    → Leads P m Q E
Leads-fact m f k = record { at = λ s h. (k (f s h)).at s h }

module _ (host : Host) (w : String) where
  -- the acceptance of the world's EULA is on the audit log
  abbrev pub Audited : Services → Type 0
  Audited s = audited host w s ≡ true

  Audited-Timeless : Timeless Audited
  Audited-Timeless s step slept p q h = h

  Audited-write :
      (world_id : String) (moved : _) (now : ℕ) (intent : WorldTransitionIntent)
      → Keeps Audited (modify (write_transition world_id moved now intent))
  unfolding modify write_transition
  Audited-write world_id moved now intent = record { at = λ s h. h }

  Audited-world : (world_id : String) → Keeps Audited (world world_id)
  unfolding world
  Audited-world world_id = search keeps_rules

  Audited-state :
      (world_id : String) (state : WorldState) (intent : WorldTransitionIntent)
      → Keeps Audited (set_world_state host world_id state intent)
  unfolding set_world_state
  Audited-state world_id state intent =
      search (keeps_rules, Audited-Timeless, Audited-world, Audited-write) depth 14

  Audited-secret :
      (port : ℕ) (password : String) → Keeps Audited (store_rcon_secret host port password)
  unfolding store_rcon_secret
  Audited-secret port password = search (keeps_rules, Audited-Timeless) depth 8

  Audited-sessions :
      (f : Services → List mcmanager.Worlds.Store.RuntimeSession)
      → Keeps Audited (modify (λ s. record s { sessions = f s }))
  unfolding modify
  Audited-sessions f = record { at = λ s h. h }

  Audited-IsKept : IsKept host Audited
  unfolding close_session open_session create_operation transition_operation claim_operation
      write_acceptance modify
  Audited-IsKept = record {
    timeless = Audited-Timeless;
    states = λ world_id state. Audited-state world_id state ordinary;
    accepts = λ world_id state. Audited-state world_id state eula_acceptance;
    audits = λ world_id by. record {
      at = λ s h. any_more (λ (a : String × String). a.0 == w) s.eula_audits (world_id, by) h;
    };
    closes = λ world_id reason. search (keeps_rules, Audited-Timeless, Audited-sessions) depth 8;
    opens = λ row handle argv port password id.
        search (keeps_rules, Audited-Timeless, Audited-secret, Audited-sessions) depth 8;
    creates = λ request allow. record {
      at = λ s h.
          engine_kept host w Audited (λ s e h. h)
            (pair_last host (
              create_with_replay request OperationStatus.queued allow (host.identifier s.step)
                (host.clock s.step) s.engine))
            s h;
    };
    moves = λ op_id status m. record {
      at = λ s h.
          engine_kept host w Audited (λ s e h. h)
            (transition op_id status m (host.identifier s.step) (host.clock s.step) s.engine) s h;
    };
    claims = λ op_id. record {
      at = λ s h.
          engine_kept host w Audited (λ s e h. h)
            (ok (claim_queued op_id (host.clock s.step) s.engine)) s h;
    };
  }

  -- a gate that passes has seen the acceptance
  Passed : GateResult → Services → Type 0
  Passed gate s = gate.passed ≡ true → Audited s

  gated-Passed :
      (row : WorldRow) (context : LaunchContext) (e : EulaState)
      → row.world_id ≡ w
      → Leads Anywhere (gated host row context e) Passed Anywhere
  unfolding gated Passed
  gated-Passed row context EulaState.not_present h = Leads-pure _ (λ s k q. cc q)
  gated-Passed row context EulaState.unaccepted h = Leads-pure _ (λ s k q. cc q)
  gated-Passed row context EulaState.accepted h =
      Leads-bind _ _ (Leads-gets (audited host row.world_id)) (λ there.
        Leads-if there _ _
          (λ yes_there.
            Leads-weaken _ (Leads-Keeps _ (Keeps-ask_or_raise Audited-Timeless _))
              (λ s (k, q). subst (λ v. audited host v s ≡ true) h (sym q ∙ yes_there))
              (λ a s k q. k) (λ s k. tt))
          (λ _. Leads-pure _ (λ s k q. cc q)))

  validate_launch-Passed :
      (row : WorldRow) (context : LaunchContext)
      → row.world_id ≡ w
      → Leads Anywhere (validate_launch host row context) Passed Anywhere
  unfolding validate_launch
  validate_launch-Passed row context h =
      Leads-bind _ _ (anywhere _) (λ e. gated-Passed row context e h)

  precheck-Audited : Leads Anywhere (precheck host w) (λ _. Audited) Anywhere
  unfolding precheck Passed
  precheck-Audited = Leads-bind _ _ (world-Found host w) (λ row.
      Leads-fact _ (λ s found. world_at-id w s.worlds found)
        (λ h.
          Leads-bind {Q = λ _. Anywhere} _ _
            (Leads-weaken _ (anywhere _) (λ s k. tt) (λ a s k. k) (λ s k. k))
            (λ _. Leads-bind _ _ (anywhere _) (λ context.
              Leads-bind _ _ (validate_launch-Passed row context h) (λ gate.
                Leads-if gate.passed _ _ (λ passed. Leads-pure tt (λ s k. k passed))
                  (λ _.
                    Leads-bind {Q = λ _. Anywhere} _ _
                      (Leads-weaken _ (anywhere _) (λ s k. tt) (λ a s k. k) (λ s k. k))
                      (λ _. Leads-raise _ (λ s k. tt))))))))

  still_logged :
      {A : Type 0} (m : Exec A) → Keeps Audited m → Leads Audited m (λ a. Audited) Anywhere
  still_logged m k = Leads-weaken m (Leads-Keeps m k) (λ s h. h) (λ a s h. h) (λ s h. tt)

  start_claimed-Audited :
      (j : String) → Leads Anywhere (start_claimed host w j) (λ _. Audited) Anywhere
  unfolding start_claimed
  start_claimed-Audited j = Leads-bind _ _ precheck-Audited (λ _.
      Leads-catch _ _ (Leads-Keeps _ (start_body-Keeps host Audited Audited-IsKept w j))
        (λ e. still_logged _ (start_failed-Keeps host Audited Audited-IsKept w j e)))

  -- A start returns a session only of a world whose acceptance of the EULA is on the audit log.
  pub starts_accepted :
      (j : String) (s : Services) (id : String) (t : Services)
      → start_claimed host w j s ≡ (ok id, t)
      → Audited t
  starts_accepted j s id t returned =
      subst (Outcome (λ (a : String). Audited) Anywhere) returned
        ((start_claimed-Audited j).at s tt)

  -- what an acceptance has done
  abbrev pub Accepted : Services → Type 0
  Accepted s = InState w WorldState.off s × Audited s
