-- ===== src/Domain/World.antt =====
-- app/domain/entities.py, events.py and invariants.py: a world instance, what it may not be, and
-- the events of its lifecycle. A timestamp is a number of seconds since the epoch.
use mcmanager.Common.{
  string_eq, option_eq, ℕ, String, Bool, true, false, Option, none, some, Result, ok, err, ◌==◌,
  ◌>>◌, raise_if, if◌then◌else◌,
}
use mcmanager.Domain.Values.{WorldState, off, running, backing_up}

pub record WorldInstance : Type 0 where
  pub world_id : String
  pub state : WorldState
  pub pre_backup_state : Option WorldState
  pub deleted_at : Option ℕ

pub record WorldStateChanged : Type 0 where
  pub world_id : String
  pub previous_state : WorldState
  pub new_state : WorldState
  pub occurred_at : ℕ

pub record WorldDeleted : Type 0 where
  pub world_id : String
  pub occurred_at : ℕ

-- why a world cannot represent a valid business state
pub data DomainInvariantError : Type 0 where
  empty_world_id backup_without_pre_state stray_pre_state tombstone_not_off : DomainInvariantError

-- pre_backup_state in (WorldState.OFF, WorldState.RUNNING)
abbrev pub is_backup_origin : Option WorldState → Bool
is_backup_origin (some off) = true
is_backup_origin (some running) = true
is_backup_origin _ = false

abbrev pub is_some {ℓ} : {A : Type ℓ} → Option A → Bool
is_some none = false
is_some (some a) = true

abbrev check_pre_state : WorldState → Option WorldState → Result DomainInvariantError (Unit {0})
check_pre_state backing_up pre =
    if is_backup_origin pre then ok tt else err backup_without_pre_state
check_pre_state _ pre = raise_if (is_some pre) stray_pre_state

abbrev check_tombstone : WorldState → Option ℕ → Result DomainInvariantError (Unit {0})
check_tombstone state none = ok tt
check_tombstone off (some at) = ok tt
check_tombstone _ (some at) = err tombstone_not_off

-- The checks on the Python types of the arguments are the types of the model.
unfoldable pub validate_world_instance :
    String → WorldState → Option WorldState → Option ℕ → Result DomainInvariantError (Unit {0})
validate_world_instance world_id state pre_backup_state deleted_at = do
  raise_if (world_id == "") empty_world_id
  check_pre_state state pre_backup_state
  check_tombstone state deleted_at

-- The constructor: `__post_init__` validates every instance, also one that `replace` makes.
unfoldable pub make_world : WorldInstance → Result DomainInvariantError WorldInstance
unfolding validate_world_instance
make_world w = do validate_world_instance w.world_id w.state w.pre_backup_state w.deleted_at; ok w
