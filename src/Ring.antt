-- ===== src/Ring.antt =====
-- A bounded queue (`collections.deque(maxlen=…)`) whose elements carry consecutive numbers: the replay
-- buffer of app/services/realtime.py and the line buffer of app/platform/process/tailing.py.
use mcmanager.Common.{
  ℕ, zero, suc, List, [], ◌∷◌, ◌++◌, ◌≡◌, refl, ap, ◌∙◌, ◌+◌, ◌-◌, ◌≤◌, arith, leb, filter, length,
  length-append, length-drop, drop, Bool-cases, inl, inr,
}

-- deque.append: a full queue drops its oldest element
unfoldable pub push_bounded {ℓ} : {A : Type ℓ} → ℕ → List A → A → List A
push_bounded limit xs x = drop (suc (length xs) - limit) (xs ++ x ∷ [])

pub length-push_bounded {ℓ} :
    {A : Type ℓ} → (limit : ℕ) (xs : List A) (x : A) → length (push_bounded limit xs x) ≤ limit
unfolding push_bounded
length-push_bounded limit xs x =
    omega (arith, length-drop (suc (length xs) - limit) (xs ++ x ∷ []), length-append xs (x ∷ []))

drop_none {ℓ} : {A : Type ℓ} → (n : ℕ) → ◌≡◌ {A = List A} [] (drop n [])
drop_none zero = refl
drop_none (suc n) = refl

module _ {ℓ} {A : Type ℓ} (number : A → ℕ) where
  -- the elements are numbered k, k + 1, …
  abbrev pub Consecutive : ℕ → List A → Type 0
  Consecutive k [] = Unit
  Consecutive k (x ∷ xs) = (number x ≡ k) × Consecutive (suc k) xs

  pub Consecutive-append :
      (k : ℕ) (xs : List A) (x : A)
      → Consecutive k xs
      → number x ≡ k + length xs
      → Consecutive k (xs ++ x ∷ [])
  Consecutive-append k [] x c n = (omega arith, tt)
  Consecutive-append k (y ∷ xs) x c n = (c.0, Consecutive-append (suc k) xs x c.1 (omega arith))

  pub Consecutive-drop :
      (k n : ℕ) (xs : List A) → n ≤ length xs → Consecutive k xs → Consecutive (k + n) (drop n xs)
  Consecutive-drop k zero xs h c = subst_to (omega arith) c
    where
      subst_to : k ≡ k + 0 → Consecutive k xs → Consecutive (k + 0) xs
      subst_to e c = rw (← e) c
  Consecutive-drop k (suc n) [] h c = tt
  Consecutive-drop k (suc n) (x ∷ xs) h c =
      let e : suc k + n ≡ k + suc n = omega arith in
      rw (← e) (Consecutive-drop (suc k) n xs (omega arith) c.1)

  -- The elements end just before `next`, and there are at most `limit` of them.
  pub record Window (limit next : ℕ) (xs : List A) : Type 0 where
    pub first : ℕ
    pub ends : first + length xs ≡ next
    pub run : Consecutive first xs
    pub fits : length xs ≤ limit

  pub Window-push :
      (limit next : ℕ) (xs : List A) (x : A)
      → number x ≡ next
      → Window limit next xs
      → Window limit (suc next) (push_bounded limit xs x)
  unfolding push_bounded
  Window-push limit next xs x is w =
      let n = suc (length xs) - limit in
      let all = Consecutive-append w.first xs x w.run (omega (arith, w.ends)) in
      let size = length-append xs (x ∷ []) in
      record {
        first = w.first + n;
        ends = omega (arith, w.ends, w.fits, length-drop n (xs ++ x ∷ []), size);
        run = Consecutive-drop w.first n (xs ++ x ∷ []) (omega (arith, size, w.fits)) all;
        fits = omega (arith, length-drop n (xs ++ x ∷ []), size);
      }

  -- the elements from a number on are the ones that are left of it
  pub filter-Consecutive :
      (k from : ℕ) (xs : List A)
      → Consecutive k xs
      → filter (λ x. leb from (number x)) xs ≡ drop (from - k) xs
  filter-Consecutive k from [] c = drop_none (from - k)
  filter-Consecutive k from (x ∷ xs) c =
      let rest = filter-Consecutive (suc k) from xs c.1 in
      elim (Bool-cases (leb from (number x))) [
        | inl e ↦
            let none_before : from - k ≡ 0 = ground (arith, c.0, e) in
            let none_later : from - suc k ≡ 0 = ground (arith, c.0, e) in
            rw (e, none_before) (ap (λ l. x ∷ l) (rest ∙ ap (λ n. drop n xs) none_later))
        | inr e ↦
            let one_more : from - k ≡ suc (from - suc k) = ground (arith, c.0, e) in
            rw (e, one_more) rest
      ]

  -- What is read from a number on is complete: the elements run from that number to the last one.
  pub read_from :
      (limit next from : ℕ) (xs : List A) (w : Window limit next xs)
      → w.first ≤ from
      → from ≤ next
      → Consecutive from (filter (λ x. leb from (number x)) xs)
        × (from + length (filter (λ x. leb from (number x)) xs) ≡ next)
  read_from limit next from xs w low high =
      let n = from - w.first in
      let e : w.first + n ≡ from = omega (arith, low) in
      let tail = Consecutive-drop w.first n xs (omega (arith, w.ends, high, low)) w.run in
      let same = filter-Consecutive w.first from xs w.run in
      rw same (rw e at tail, omega (arith, length-drop n xs, w.ends, low, high))
