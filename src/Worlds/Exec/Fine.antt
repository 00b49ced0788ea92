-- ===== src/Worlds/Exec/Fine.antt =====
-- Methods of app/services/worlds.py that do not run out of fuel.
use mcmanager.Common.{ℕ, suc, String, Bool, true, false, ◌≡◌, refl, if◌then◌else◌, Result, ok, err}
use mcmanager.Worlds.Store.{Services}
use mcmanager.Worlds.Exec.{
  Raised, out_of_fuel, Exec, pure, raise, ask, ask_or_raise, catch, of_port, ◌>>=◌,
}
use mcmanager.Worlds.Exec.Keeps.{Keeps}

-- not that the fuel has run out
abbrev pub NotFuel : Raised → Type 0
NotFuel out_of_fuel = ⊥
NotFuel _ = Unit

abbrev pub Fueled : {A : Type 0} → (A → Services → Type 0) → Result Raised A × Services → Type 0
Fueled Q (ok a, s) = Q a s
Fueled Q (err e, s) = NotFuel e

-- From `P`, the method does not run out of fuel, and leads to `Q` if it returns.
pub record Fine {A : Type 0} (P : Services → Type 0) (m : Exec A) (Q : A → Services → Type 0)
    : Type 0 where
  pub at : (s : Services) → P s → Fueled Q (m s)

-- a method that has no loop
abbrev pub Anywhere : Services → Type 0
Anywhere s = Unit

abbrev pub Plain : {A : Type 0} → Exec A → Type 0
Plain m = Fine Anywhere m (λ a. Anywhere)

both :
    {A : Type 0} (P : Services → Type 0) (r : Result Raised A × Services)
    → Fueled (λ (a : A). Anywhere) r
    → P r.1
    → Fueled (λ (a : A). P) r
both P (ok a, s) h k = k
both P (err e, s) h k = h

module _ {A : Type 0} {P : Services → Type 0} where
  pub Fine-pure :
      {Q : A → Services → Type 0} (a : A) → ((s : Services) → P s → Q a s) → Fine P (pure a) Q
  unfolding pure
  Fine-pure a h = record { at = h }

  pub Fine-raise : {Q : A → Services → Type 0} (e : Raised) → NotFuel e → Fine P (raise {A = A} e) Q
  unfolding raise
  Fine-raise e h = record { at = λ s k. h }

  pub Fine-if :
      {Q : A → Services → Type 0} (b : Bool) (m n : Exec A)
      → (b ≡ true → Fine P m Q)
      → (b ≡ false → Fine P n Q)
      → Fine P (if b then m else n) Q
  Fine-if true m n p q = p refl
  Fine-if false m n p q = q refl

  -- what a plain method keeps
  pub Fine-Keeps : (m : Exec A) → Plain m → Keeps P m → Fine P m (λ a. P)
  Fine-Keeps m p k = record { at = λ s h. both P (m s) (p.at s tt) (k.at s h) }

  pub Fine-weaken :
      {P' : Services → Type 0} {Q : A → Services → Type 0} (m : Exec A)
      → Fine P m Q
      → ((s : Services) → P' s → P s)
      → Fine P' m Q
  Fine-weaken m l p = record { at = λ s h. l.at s (p s h) }

module _ {A B : Type 0} {Q : A → Services → Type 0} {R : B → Services → Type 0} where
  bound :
      (f : A → Exec B) (r : Result Raised A × Services)
      → Fueled Q r
      → ((a : A) → Fine (Q a) (f a) R)
      → Fueled R (((λ _. r) >>= f) r.1)
  unfolding ◌>>=◌
  bound f (ok a, s) h k = (k a).at s h
  bound f (err e, s) h k = h

  pub Fine-bind :
      {P : Services → Type 0} (m : Exec A) (f : A → Exec B)
      → Fine P m Q
      → ((a : A) → Fine (Q a) (f a) R)
      → Fine P (m >>= f) R
  unfolding ◌>>=◌
  Fine-bind m f l k = record { at = λ s h. bound f (m s) (l.at s h) k }

module _ {A : Type 0} where
  pub Plain-pure : (a : A) → Plain (pure a)
  Plain-pure a = Fine-pure a (λ s h. h)

  pub Plain-bind :
      {B : Type 0} (m : Exec A) (f : A → Exec B)
      → Plain m
      → ((a : A) → Plain (f a))
      → Plain (m >>= f)
  Plain-bind m f l k = Fine-bind m f l k

  pub Plain-if : (b : Bool) (m n : Exec A) → Plain m → Plain n → Plain (if b then m else n)
  Plain-if b m n p q = Fine-if b m n (λ _. p) (λ _. q)

  pub Plain-ask : (f : ℕ → A) → Plain (ask f)
  unfolding ask
  Plain-ask f = record { at = λ s h. tt }

  pub Plain-ask_or_raise : (f : ℕ → Result String A) → Plain (ask_or_raise f)
  unfolding ask_or_raise
  Plain-ask_or_raise f = record { at = λ s h. answered s (f s.step) }
    where
      answered :
          (s : Services) (r : Result String A)
          → Fueled (λ (a : A). Anywhere) (of_port r, record s { step = suc s.step })
      answered s (ok a) = tt
      answered s (err e) = tt

  handled-Plain :
      (g : Raised → Exec A) (r : Result Raised A × Services)
      → Fueled (λ a. Anywhere) r
      → ((e : Raised) → NotFuel e → Plain (g e))
      → Fueled (λ (a : A). Anywhere) (catch (λ _. r) g r.1)
  unfolding catch
  handled-Plain g (ok a, s) h k = tt
  handled-Plain g (err e, s) h k = (k e h).at s tt

  pub Plain-catch :
      (m : Exec A) (g : Raised → Exec A)
      → Plain m
      → ((e : Raised) → NotFuel e → Plain (g e))
      → Plain (catch m g)
  unfolding catch
  Plain-catch m g l k = record { at = λ s h. handled-Plain g (m s) (l.at s tt) k }

pub ruleset plain_rules = (Plain-pure, Plain-bind, Plain-if, Plain-ask, Plain-ask_or_raise)
