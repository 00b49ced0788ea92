-- ===== src/Worlds/Kept/Readiness.antt =====
-- The loops over a process change no table (app/services/worlds.py).
use mcmanager.Common.{ℕ, zero, suc, String, Bool, Option, none, some}
use mcmanager.Domain.Values.{ServerType}
use mcmanager.Worlds.Store.{WorldRow, ProcessHandle, Services, Host}
use mcmanager.Worlds.Exec.Keeps.{Keeps, Timeless, keeps_rules}
use mcmanager.Worlds.Readiness.{
  Rcon, wait_exit, wait_for_exit, teardown, after_connect, reach, consult, rcon_round, await,
  await_readiness,
}

module _ (host : Host) (P : Services → Type 0) (free : Timeless P) where
  wait_exit-Keeps :
      (fuel : ℕ) (handle : ProcessHandle) (deadline : ℕ)
      → Keeps P (wait_exit host fuel handle deadline)
  unfolding wait_exit
  wait_exit-Keeps zero handle deadline = search keeps_rules
  wait_exit-Keeps (suc fuel) handle deadline =
      search (keeps_rules, free, wait_exit-Keeps fuel) depth 12

  pub wait_for_exit-Keeps :
      (handle : ProcessHandle) (timeout : ℕ) → Keeps P (wait_for_exit host handle timeout)
  unfolding wait_for_exit
  wait_for_exit-Keeps handle timeout = search (keeps_rules, free, wait_exit-Keeps) depth 12

  pub teardown-Keeps :
      (handle : ProcessHandle) (timeout : ℕ) → Keeps P (teardown host handle timeout)
  unfolding teardown
  teardown-Keeps handle timeout = search (keeps_rules, free) depth 12

  after_connect-Keeps :
      (c : Rcon) (answer : Option (Unit {0})) → Keeps P (after_connect host c answer)
  unfolding after_connect
  after_connect-Keeps c none = search keeps_rules
  after_connect-Keeps c (some _) = search (keeps_rules, free) depth 8

  reach-Keeps : (c : Rcon) → Keeps P (reach host c)
  unfolding reach
  reach-Keeps c = search (keeps_rules, free, after_connect-Keeps) depth 12

  consult-Keeps : (server_type : ServerType) (c : Rcon) → Keeps P (consult host server_type c)
  unfolding consult
  consult-Keeps server_type c = search (keeps_rules, free) depth 12

  pub rcon_round-Keeps :
      (server_type : ServerType) (configured : Bool) (c : Rcon)
      → Keeps P (rcon_round host server_type configured c)
  unfolding rcon_round
  rcon_round-Keeps server_type configured c =
      search (keeps_rules, reach-Keeps, consult-Keeps) depth 12

  await-Keeps :
      (fuel : ℕ) (row : WorldRow) (handle : ProcessHandle) (configured : Bool) (deadline : ℕ)
      (c : Rcon)
      → Keeps P (await host fuel row handle configured deadline c)
  unfolding await
  await-Keeps zero row handle configured deadline c = search keeps_rules
  await-Keeps (suc fuel) row handle configured deadline c =
      search
        (
          keeps_rules,
          free,
          teardown-Keeps,
          rcon_round-Keeps,
          await-Keeps fuel row handle configured deadline,
        )
        depth 24

  pub await_readiness-Keeps :
      (row : WorldRow) (handle : ProcessHandle) (rcon_port : ℕ) (password : String)
      → Keeps P (await_readiness host row handle rcon_port password)
  unfolding await_readiness
  await_readiness-Keeps row handle rcon_port password =
      search (keeps_rules, free, await-Keeps) depth 12
