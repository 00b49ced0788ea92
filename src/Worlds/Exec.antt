-- ===== src/Worlds/Exec.antt =====
-- Methods of app/services/worlds.py that change the store and may raise. What was committed before a
-- raise stays, so the state comes back beside the error too.
pub mod Keeps
pub mod Leads
pub mod Fine
use mcmanager.Common.{
  ℕ, suc, String, Bool, true, false, Option, none, some, Result, ok, err, ◌+◌, if◌then◌else◌,
}
use mcmanager.Operations.Policy.{OperationError}
use mcmanager.Worlds.Store.{Services, Host}

-- what is raised; the first five are `WorldLifecycleError` and its subclasses
pub data Raised : Type 0 where
  world_not_found world_conflict start_timeout : Raised
  spawn_failed lifecycle : String → Raised
  configuration_conflict invalid_world : Raised
  operation : OperationError → Raised
  port : String → Raised
  out_of_fuel : Raised

-- isinstance(exc, WorldLifecycleError)
abbrev pub is_lifecycle : Raised → Bool
is_lifecycle world_not_found = true
is_lifecycle world_conflict = true
is_lifecycle start_timeout = true
is_lifecycle (spawn_failed _) = true
is_lifecycle (lifecycle _) = true
is_lifecycle _ = false

-- str(exc), by the kind of the exception where the text is composed
abbrev pub message_of : Raised → String
message_of world_not_found = "world not found"
message_of world_conflict = "world conflict"
message_of start_timeout = "start timeout"
message_of (spawn_failed message) = message
message_of (lifecycle message) = message
message_of configuration_conflict = "CONFIG_VERSION_CONFLICT"
message_of invalid_world = "invalid world"
message_of (operation e) = "operation refused"
message_of (port message) = message
message_of out_of_fuel = "out of fuel"

abbrev pub Exec : Type 0 → Type 0
Exec A = Services → Result Raised A × Services

module _ {A : Type 0} where
  unfoldable pub pure : A → Exec A
  pure a s = (ok a, s)

  unfoldable pub raise : Raised → Exec A
  raise e s = (err e, s)

  unfoldable pub gets : (Services → A) → Exec A
  gets f s = (ok (f s), s)

  unfoldable pub lift : Result Raised A → Exec A
  lift r s = (r, s)

  abbrev pub of_port : Result String A → Result Raised A
  of_port (ok a) = ok a
  of_port (err message) = err (port message)

  -- a call of a port at the current step
  unfoldable pub ask : (ℕ → A) → Exec A
  ask f s = (ok (f s.step), record s { step = suc s.step })

  unfoldable pub ask_or_raise : (ℕ → Result String A) → Exec A
  ask_or_raise f s = (of_port (f s.step), record s { step = suc s.step })

  abbrev handled : Result Raised A → (Raised → Exec A) → Exec A
  handled (ok a) handler s = (ok a, s)
  handled (err e) handler s = handler e s

  -- try: … except Exception as exc: …
  unfoldable pub catch : Exec A → (Raised → Exec A) → Exec A
  catch m handler s = let (r, t) = m s in handled r handler t

unfoldable pub modify : (Services → Services) → Exec (Unit {0})
modify f s = (ok tt, f s)

module _ {A B : Type 0} where
  abbrev continue : Result Raised A → (A → Exec B) → Exec B
  continue (ok a) f s = f a s
  continue (err e) f s = (err e, s)

  infixl 10 ◌>>=◌ ◌>>◌
  unfoldable pub ◌>>=◌ : Exec A → (A → Exec B) → Exec B
  unfolding pure raise gets lift ask ask_or_raise catch modify
  ◌>>=◌ m f s = let (r, t) = m s in continue r f t

  abbrev pub ◌>>◌ : Exec A → Exec B → Exec B
  m >> n = m >>= λ _. n

abbrev pub raise_if : Bool → Raised → Exec (Unit {0})
raise_if b e = if b then raise e else pure tt

-- time.sleep, in milliseconds
unfoldable pub sleep : ℕ → Exec (Unit {0})
unfolding modify
sleep ms = modify (λ s. record s { slept = s.slept + ms })

-- time.monotonic: what has gone by, beside the sleeps
unfoldable pub monotonic : Host → Exec ℕ
monotonic host s = (ok (host.elapsed s.step + s.slept), record s { step = suc s.step })

unfoldable pub or_raise : {A : Type 0} → Option A → Raised → Exec A
or_raise none e = raise e
or_raise (some a) e = pure a
