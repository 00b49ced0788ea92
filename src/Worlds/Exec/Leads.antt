-- ===== src/Worlds/Exec/Leads.antt =====
-- What a method of app/services/worlds.py leads to, by how it ends.
use mcmanager.Common.{Bool, true, false, Result, ok, err, ◌≡◌, refl, if◌then◌else◌}
use mcmanager.Worlds.Store.{Services}
use mcmanager.Worlds.Exec.{Raised, Exec, pure, raise, gets, catch, ◌>>=◌}
use mcmanager.Worlds.Exec.Keeps.{Keeps}

-- what holds when a method has ended: `Q` if it has returned, `E` if it has raised
abbrev pub Outcome :
    {A : Type 0}
    → (A → Services → Type 0)
    → (Services → Type 0)
    → Result Raised A × Services
    → Type 0
Outcome Q E (ok a, s) = Q a s
Outcome Q E (err e, s) = E s

-- From `P`, the method leads to `Q` if it returns and to `E` if it raises.
pub record Leads {A : Type 0} (P : Services → Type 0) (m : Exec A) (Q : A → Services → Type 0)
    (E : Services → Type 0) : Type 0 where
  pub at : (s : Services) → P s → Outcome Q E (m s)

module _ {A B : Type 0} {Q : A → Services → Type 0} {R : B → Services → Type 0}
    {E : Services → Type 0} where
  bind_outcome :
      (f : A → Exec B) (r : Result Raised A × Services)
      → Outcome Q E r
      → ((a : A) → Leads (Q a) (f a) R E)
      → Outcome R E (((λ _. r) >>= f) r.1)
  unfolding ◌>>=◌
  bind_outcome f (ok a, s) h k = (k a).at s h
  bind_outcome f (err e, s) h k = h

  pub Leads-bind :
      {P : Services → Type 0} (m : Exec A) (f : A → Exec B)
      → Leads P m Q E
      → ((a : A) → Leads (Q a) (f a) R E)
      → Leads P (m >>= f) R E
  unfolding ◌>>=◌
  Leads-bind m f l k = record { at = λ s h. bind_outcome f (m s) (l.at s h) k }

module _ {A : Type 0} {Q : A → Services → Type 0} {E F : Services → Type 0} where
  catch_outcome :
      (g : Raised → Exec A) (r : Result Raised A × Services)
      → Outcome Q F r
      → ((e : Raised) → Leads F (g e) Q E)
      → Outcome Q E (catch (λ _. r) g r.1)
  unfolding catch
  catch_outcome g (ok a, s) h k = h
  catch_outcome g (err e, s) h k = (k e).at s h

  pub Leads-catch :
      {P : Services → Type 0} (m : Exec A) (g : Raised → Exec A)
      → Leads P m Q F
      → ((e : Raised) → Leads F (g e) Q E)
      → Leads P (catch m g) Q E
  unfolding catch
  Leads-catch m g l k = record { at = λ s h. catch_outcome g (m s) (l.at s h) k }

kept_outcome :
    {A : Type 0} (P : Services → Type 0) (r : Result Raised A × Services)
    → P r.1
    → Outcome (λ (a : A). P) P r
kept_outcome P (ok a, s) h = h
kept_outcome P (err e, s) h = h

module _ {A : Type 0} {P : Services → Type 0} where
  -- what a method keeps, it leads to
  pub Leads-Keeps : (m : Exec A) → Keeps P m → Leads P m (λ (a : A). P) P
  Leads-Keeps m k = record { at = λ s h. kept_outcome P (m s) (k.at s h) }

  pub Leads-weaken :
      {P' : Services → Type 0} {Q Q' : A → Services → Type 0} {E E' : Services → Type 0}
      (m : Exec A)
      → Leads P m Q E
      → ((s : Services) → P' s → P s)
      → ((a : A) (s : Services) → Q a s → Q' a s)
      → ((s : Services) → E s → E' s)
      → Leads P' m Q' E'
  Leads-weaken {Q = Q} {Q' = Q'} {E = E} {E' = E'} m l p q e = record {
    at = λ s h. weaker (m s) (l.at s (p s h));
  }
    where
      weaker : (r : Result Raised A × Services) → Outcome Q E r → Outcome Q' E' r
      weaker (ok a, s) h = q a s h
      weaker (err x, s) h = e s h

  pub Leads-pure :
      {Q : A → Services → Type 0} {E : Services → Type 0} (a : A)
      → ((s : Services) → P s → Q a s)
      → Leads P (pure a) Q E
  unfolding pure
  Leads-pure a h = record { at = h }

  pub Leads-raise :
      {Q : A → Services → Type 0} {E : Services → Type 0} (e : Raised)
      → ((s : Services) → P s → E s)
      → Leads P (raise {A = A} e) Q E
  unfolding raise
  Leads-raise e h = record { at = h }

  -- what is read is what the state holds
  pub Leads-gets :
      {E : Services → Type 0} (f : Services → A) → Leads P (gets f) (λ a s. P s × (a ≡ f s)) E
  unfolding gets
  Leads-gets f = record { at = λ s h. (h, refl) }

  pub Leads-if :
      {Q : A → Services → Type 0} {E : Services → Type 0} (b : Bool) (m n : Exec A)
      → (b ≡ true → Leads P m Q E)
      → (b ≡ false → Leads P n Q E)
      → Leads P (if b then m else n) Q E
  Leads-if true m n p q = p refl
  Leads-if false m n p q = q refl

both_outcome :
    {A : Type 0} (P : Services → Type 0) (Q : A → Services → Type 0) (E : Services → Type 0)
    (r : Result Raised A × Services)
    → Outcome Q E r
    → P r.1
    → Outcome (λ a s. P s × Q a s) E r
both_outcome P Q E (ok a, s) q p = (p, q)
both_outcome P Q E (err e, s) q p = q

-- a method that leads from `R` to `Q` keeps `P` beside
pub Leads-with :
    {A : Type 0} {P R : Services → Type 0} {Q : A → Services → Type 0} {E : Services → Type 0}
    (m : Exec A)
    → Leads R m Q E
    → Keeps P m
    → Leads (λ s. R s × P s) m (λ a s. P s × Q a s) E
Leads-with {P = P} {Q = Q} {E = E} m l k = record {
  at = λ s h. both_outcome P Q E (m s) (l.at s h.0) (k.at s h.1);
}

-- a method that leads to `Q` from anywhere keeps `P` beside
pub Leads-both :
    {A : Type 0} {P : Services → Type 0} {Q : A → Services → Type 0} {E : Services → Type 0}
    (m : Exec A)
    → Leads (λ s. Unit {0}) m Q E
    → Keeps P m
    → Leads P m (λ a s. P s × Q a s) E
Leads-both {P = P} {Q = Q} {E = E} m l k =
    Leads-weaken m (Leads-with m l k) (λ s h. (tt, h)) (λ a s h. h) (λ s h. h)
