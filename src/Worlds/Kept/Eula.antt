-- ===== src/Worlds/Kept/Eula.antt =====
-- The acceptance of the EULA (app/services/worlds.py).
use mcmanager.Common.{String, Bool}
use mcmanager.Worlds.Store.{WorldRow, Services, Host}
use mcmanager.Worlds.Exec.{Raised}
use mcmanager.Worlds.Exec.Keeps.{Keeps, keeps_rules}
use mcmanager.Worlds.Eula.{acceptance, acceptance_failed, may_accept, accept_eula}
use mcmanager.Worlds.Kept.{IsKept, world-Keeps}

module _ (host : Host) (P : Services → Type 0) (kept : IsKept host P) where
  acceptance-Keeps :
      (row : WorldRow) (world_id actor_user_id op_id : String)
      → Keeps P (acceptance host row world_id actor_user_id op_id)
  unfolding acceptance
  acceptance-Keeps row world_id actor_user_id op_id =
      search (keeps_rules, kept.timeless, kept.audits, kept.accepts, kept.moves) depth 16

  acceptance_failed-Keeps :
      (world_id op_id : String) (e : Raised) → Keeps P (acceptance_failed host world_id op_id e)
  unfolding acceptance_failed
  acceptance_failed-Keeps world_id op_id e = search (keeps_rules, kept.moves) depth 8

  may_accept-Keeps :
      (world_id actor_user_id : String) (accepted : Bool)
      → Keeps P (may_accept host world_id actor_user_id accepted)
  unfolding may_accept
  may_accept-Keeps world_id actor_user_id accepted =
      search (keeps_rules, world-Keeps host P kept) depth 16

  pub accept_eula-Keeps :
      (world_id actor_user_id : String) (accepted : Bool)
      → Keeps P (accept_eula host world_id actor_user_id accepted)
  unfolding accept_eula
  accept_eula-Keeps world_id actor_user_id accepted =
      search
        (
          keeps_rules, may_accept-Keeps, kept.creates, kept.moves, acceptance-Keeps,
          acceptance_failed-Keeps,
        )
        depth 16
