-- ===== src/Domain/Lifecycle/Rules.antt =====
-- An independent description of the lifecycle of app/domain/lifecycle.py: the valid worlds, and
-- the moves between states with the authority that each one needs.
use mcmanager.Common.{Option, none, some, ◌≡◌, ◌≢◌, ◌⊎◌, ok, arith, string_eq, eq_iff}
use mcmanager.Domain.Values.{
  WorldState, off, queued, starting, running, stopping, restoring, backing_up, crashed, error,
  eula_required,
}
use mcmanager.Domain.World.{WorldInstance, make_world}
use mcmanager.Domain.Lifecycle.{
  WorldTransitionIntent, ordinary, crash_acknowledgement, error_acknowledgement, eula_acceptance,
}

-- What the domain document says of a world.
pub record IsValid (w : WorldInstance) : Type 0 where
  pub named : w.world_id ≢ ""
  pub backup_origin :
      w.state ≡ backing_up → (w.pre_backup_state ≡ some off) ⊎ (w.pre_backup_state ≡ some running)
  pub no_stray_origin : w.state ≢ backing_up → w.pre_backup_state ≡ none
  pub tombstone_off : w.deleted_at ≢ none → w.state ≡ off

-- The moves that a world makes, with the authority that each needs. The second index is the state
-- that the world had before its backup.
pub data Move : WorldState → Option WorldState → WorldTransitionIntent → WorldState → Type 0 where
  stay : (s : WorldState) (pre : Option WorldState) → Move s pre ordinary s
  enqueue : (pre : Option WorldState) → Move off pre ordinary queued
  begin_restore : (pre : Option WorldState) → Move off pre ordinary restoring
  ask_eula : (pre : Option WorldState) → Move off pre ordinary eula_required
  backup_off : (pre : Option WorldState) → Move off pre ordinary backing_up
  dequeue : (pre : Option WorldState) → Move queued pre ordinary off
  launch : (pre : Option WorldState) → Move queued pre ordinary starting
  ready : (pre : Option WorldState) → Move starting pre ordinary running
  fail_start : (pre : Option WorldState) → Move starting pre ordinary error
  begin_stop : (pre : Option WorldState) → Move running pre ordinary stopping
  crash : (pre : Option WorldState) → Move running pre ordinary crashed
  backup_running : (pre : Option WorldState) → Move running pre ordinary backing_up
  stopped : (pre : Option WorldState) → Move stopping pre ordinary off
  restored : (pre : Option WorldState) → Move restoring pre ordinary off
  fail_restore : (pre : Option WorldState) → Move restoring pre ordinary error
  backed_up_off : Move backing_up (some off) ordinary off
  backed_up_running : Move backing_up (some running) ordinary running
  fail_backup : (pre : Option WorldState) → Move backing_up pre ordinary error
  acknowledge_crash : (pre : Option WorldState) → Move crashed pre crash_acknowledgement off
  acknowledge_error : (pre : Option WorldState) → Move error pre error_acknowledgement off
  accept_eula : (pre : Option WorldState) → Move eula_required pre eula_acceptance off

pub ruleset moves = (
  stay, enqueue, begin_restore, ask_eula, backup_off, dequeue, launch, ready, fail_start,
  begin_stop, crash, backup_running, stopped, restored, fail_restore, backed_up_off,
  backed_up_running, fail_backup, acknowledge_crash, acknowledge_error, accept_eula,
)

-- What a world remembers of its state before a backup: a move from `s` to `t` turns `pre` into
-- `pre'`.
pub record Origin (s : WorldState) (pre : Option WorldState) (t : WorldState)
    (pre' : Option WorldState) : Type 0 where
  pub remembers : s ≢ backing_up → t ≡ backing_up → pre' ≡ some s
  pub forgets : s ≡ backing_up → t ≢ backing_up → pre' ≡ none
  pub goes_on : s ≡ backing_up → t ≡ backing_up → pre' ≡ pre
  pub keeps : s ≢ backing_up → t ≢ backing_up → pre' ≡ pre

-- The constructor accepts the valid worlds only.
pub make_world-IsValid : (w v : WorldInstance) → make_world w ≡ ok v → (v ≡ w) × IsValid v
unfolding make_world
make_world-IsValid w v h = ground (arith, eq_iff w.world_id "")

pub IsValid-make_world : (w : WorldInstance) → IsValid w → make_world w ≡ ok w
unfolding make_world
IsValid-make_world w v = ground (arith, eq_iff w.world_id "")
