-- ===== src/Worlds/Exec/Keeps.antt =====
-- Invariants of methods (app/services/worlds.py), one rule for each way to build a method.
use mcmanager.Common.{
  ℕ, suc, ◌+◌, ◌≤◌, arith, String, Bool, true, false, Option, none, some, Result, ok, err,
  if◌then◌else◌,
}
use mcmanager.Worlds.Store.{Services, Host}
use mcmanager.Worlds.Exec.{
  Raised, Exec, pure, raise, gets, lift, ask, ask_or_raise, catch, ◌>>=◌, sleep, monotonic,
  or_raise,
}

-- A method keeps `P`, whether it returns or raises.
pub record Keeps {A : Type 0} (P : Services → Type 0) (m : Exec A) : Type 0 where
  pub at : (s : Services) → P s → P (m s).1

-- later steps and more time slept do not end `P`
abbrev pub Timeless : (Services → Type 0) → Type 0
Timeless P =
    (s : Services) (step slept : ℕ)
    → s.step ≤ step
    → s.slept ≤ slept
    → P s
    → P (record s { step = step; slept = slept })

module _ {A : Type 0} {P : Services → Type 0} where
  pub Keeps-pure : (a : A) → Keeps P (pure a)
  unfolding pure
  Keeps-pure a = record { at = λ s h. h }

  pub Keeps-raise : (e : Raised) → Keeps P (raise {A = A} e)
  unfolding raise
  Keeps-raise e = record { at = λ s h. h }

  pub Keeps-gets : (f : Services → A) → Keeps P (gets f)
  unfolding gets
  Keeps-gets f = record { at = λ s h. h }

  pub Keeps-lift : (r : Result Raised A) → Keeps P (lift r)
  unfolding lift
  Keeps-lift r = record { at = λ s h. h }

  pub Keeps-ask : Timeless P → (f : ℕ → A) → Keeps P (ask f)
  unfolding ask
  Keeps-ask free f = record {
    at = λ s h. free s (suc s.step) s.slept (omega arith) (omega arith) h;
  }

  pub Keeps-ask_or_raise : Timeless P → (f : ℕ → Result String A) → Keeps P (ask_or_raise f)
  unfolding ask_or_raise
  Keeps-ask_or_raise free f = record {
    at = λ s h. free s (suc s.step) s.slept (omega arith) (omega arith) h;
  }

  pub Keeps-or_raise : (o : Option A) (e : Raised) → Keeps P (or_raise o e)
  unfolding or_raise pure raise
  Keeps-or_raise none e = record { at = λ s h. h }
  Keeps-or_raise (some a) e = record { at = λ s h. h }

  pub Keeps-if : (b : Bool) (m n : Exec A) → Keeps P m → Keeps P n → Keeps P (if b then m else n)
  Keeps-if true m n km kn = km
  Keeps-if false m n km kn = kn

  handled_keeps :
      (g : Raised → Exec A) (r : Result Raised A × Services)
      → P r.1
      → ((e : Raised) → Keeps P (g e))
      → P (catch (λ _. r) g r.1).1
  unfolding catch
  handled_keeps g (ok a, s) h k = h
  handled_keeps g (err e, s) h k = (k e).at s h

  pub Keeps-catch :
      (m : Exec A) (g : Raised → Exec A)
      → Keeps P m
      → ((e : Raised) → Keeps P (g e))
      → Keeps P (catch m g)
  unfolding catch
  Keeps-catch m g km kg = record { at = λ s h. handled_keeps g (m s) (km.at s h) kg }

module _ {A B : Type 0} {P : Services → Type 0} where
  continued_keeps :
      (f : A → Exec B) (r : Result Raised A × Services)
      → P r.1
      → ((a : A) → Keeps P (f a))
      → P (((λ _. r) >>= f) r.1).1
  unfolding ◌>>=◌
  continued_keeps f (ok a, s) h k = (k a).at s h
  continued_keeps f (err e, s) h k = h

  pub Keeps-bind :
      (m : Exec A) (f : A → Exec B) → Keeps P m → ((a : A) → Keeps P (f a)) → Keeps P (m >>= f)
  unfolding ◌>>=◌
  Keeps-bind m f km kf = record { at = λ s h. continued_keeps f (m s) (km.at s h) kf }

pub Keeps-sleep : {P : Services → Type 0} → Timeless P → (ms : ℕ) → Keeps P (sleep ms)
unfolding sleep
Keeps-sleep free ms = record {
  at = λ s h. free s s.step (s.slept + ms) (omega arith) (omega arith) h;
}

pub Keeps-monotonic :
    {P : Services → Type 0} → Timeless P → (host : Host) → Keeps P (monotonic host)
unfolding monotonic
Keeps-monotonic free host = record {
  at = λ s h. free s (suc s.step) s.slept (omega arith) (omega arith) h;
}

pub ruleset keeps_rules = (
  Keeps-pure, Keeps-raise, Keeps-gets, Keeps-lift, Keeps-if, Keeps-bind, Keeps-catch, Keeps-ask,
  Keeps-ask_or_raise, Keeps-sleep, Keeps-monotonic, Keeps-or_raise,
)
