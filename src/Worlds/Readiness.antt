-- ===== src/Worlds/Readiness.antt =====
-- The loops of app/services/worlds.py over a process: `_wait_exit`, `_teardown` and
-- `_await_readiness`. Each takes as fuel how often it may sleep.
use mcmanager.Common.{
  ℕ, zero, suc, String, string_eq, Bool, true, false, not, ◌&&◌, ◌||◌, ◌/◌, Option, none, some,
  ◌==◌, nat_eq, ◌+◌, ◌*◌, leb, ltb, if◌then◌else◌,
}
use mcmanager.Domain.Values.{
  ServerType, paper, ServerReadinessLevel, operationally_valid, readiness_level_eq, rank,
}
use mcmanager.Worlds.Store.{WorldRow, ProcessHandle, Host}
use mcmanager.Worlds.Exec.{
  start_timeout, out_of_fuel, Exec, pure, raise, ask, ask_or_raise, catch, ◌>>=◌, ◌>>◌, sleep,
  monotonic,
}

-- START_READINESS_TIMEOUT_S and STOP_GRACEFUL_DEADLINE_S, in milliseconds
abbrev pub start_readiness_timeout : ℕ
start_readiness_timeout = 120 * 1000

abbrev pub stop_graceful_deadline : ℕ
stop_graceful_deadline = 60 * 1000

-- the client of the loop: whether it is connected, and what it has told
pub record Rcon : Type 0 where
  pub client : Bool
  pub ready : Bool
  pub valid : Bool

module _ (host : Host) where
  unfoldable pub wait_exit : ℕ → ProcessHandle → ℕ → Exec Bool
  wait_exit zero handle deadline = raise out_of_fuel
  wait_exit (suc fuel) handle deadline = do
    now ← monotonic host
    status ← ask_or_raise (λ n. host.poll n handle)
    if not (ltb now deadline) || not status.alive
        then pure (not status.alive)
        else (sleep 500 >> wait_exit fuel handle deadline)

  -- `_wait_exit`
  unfoldable pub wait_for_exit : ProcessHandle → ℕ → Exec Bool
  wait_for_exit handle timeout = do
    now ← monotonic host
    wait_exit (suc (suc (timeout / 500))) handle (now + timeout)

  -- `_teardown`: try: terminate, finally: close_handle
  unfoldable pub teardown : ProcessHandle → ℕ → Exec (Unit {0})
  teardown handle graceful_deadline_s = do
    catch (ask_or_raise (λ n. host.terminate n handle graceful_deadline_s) >> pure tt)
        (λ e. ask_or_raise (λ n. host.close_handle n handle) >> raise e)
    ask_or_raise (λ n. host.close_handle n handle)

  abbrev connected : Rcon → Option Bool → Rcon
  connected c none = record c { client = false }
  connected c (some ready) = record c { client = true; ready = ready }

  abbrev pinged : Rcon → Option Bool → Rcon
  pinged c none = record c { client = false; ready = false }
  pinged c (some ready) = record c { ready = ready }

  unfoldable pub after_connect : Rcon → Option (Unit {0}) → Exec Rcon
  after_connect c none = pure (record c { client = false })
  after_connect c (some _) = do answer ← ask host.rcon_ping; pure (connected c answer)

  -- the connection of a round
  unfoldable pub reach : Rcon → Exec Rcon
  reach c =
      if not c.client
      then (ask host.rcon_connect >>= λ answer. after_connect c answer)
      else if not c.ready
      then (ask host.rcon_ping >>= λ answer. pure (pinged c answer))
      else pure c

  abbrev told : Rcon → Option Bool → Rcon
  told c none = record c { valid = false }
  told c (some text) = record c { valid = text }

  abbrev needs_tps : ServerType → Rcon → Bool
  needs_tps server_type c = is_paper server_type && host.paper_api server_type && c.valid
    where
      is_paper : ServerType → Bool
      is_paper paper = true
      is_paper _ = false

  -- the commands of a round
  unfoldable pub consult : ServerType → Rcon → Exec Rcon
  consult server_type c = do
    listed ← ask (λ n. host.rcon_command n "list")
    let c' = told c listed
    if needs_tps server_type c'
        then (ask (λ n. host.rcon_command n "tps") >>= λ answer. pure (told c' answer))
        else pure c'

  -- what a round learns from the server's console
  unfoldable pub rcon_round : ServerType → Bool → Rcon → Exec Rcon
  rcon_round server_type configured c = do
    c' ← if configured then reach c else pure c
    if configured && c'.client && c'.ready && host.target_level server_type == operationally_valid
        then consult server_type c'
        else pure c'

  unfoldable pub await : ℕ → WorldRow → ProcessHandle → Bool → ℕ → Rcon → Exec ServerReadinessLevel
  await zero row handle configured deadline c = raise out_of_fuel
  await (suc fuel) row handle configured deadline c = do
    now ← monotonic host
    if not (ltb now deadline) then (teardown handle 0 >> raise start_timeout) else (do
      status ← ask_or_raise (λ n. host.poll n handle)
      if not status.alive then raise start_timeout else (do
        c' ← rcon_round row.server_type configured c
        level ← ask_or_raise (λ n. host.readiness n row.server_type row.port c'.ready c'.valid)
        if leb (rank (host.target_level row.server_type)) (rank level)
            then pure level
            else (sleep 250 >> await fuel row handle configured deadline c')))

  -- `_await_readiness`
  unfoldable pub await_readiness : WorldRow → ProcessHandle → ℕ → String → Exec ServerReadinessLevel
  await_readiness row handle rcon_port rcon_password = do
    now ← monotonic host
    await (suc (start_readiness_timeout / 250)) row handle
        (not (rcon_port == 0) && not (rcon_password == "")) (now + start_readiness_timeout)
        (record { client = false; ready = false; valid = false })
