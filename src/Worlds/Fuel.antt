-- ===== src/Worlds/Fuel.antt =====
-- The loops of app/services/worlds.py over a process end: the fuel that they are given is enough.
use mcmanager.Worlds.Exec.Fine.{
  NotFuel, Fueled, Fine, Anywhere, Plain, Fine-pure, Fine-raise, Fine-if, Fine-Keeps, Fine-weaken,
  Fine-bind, Plain-pure, Plain-bind, Plain-ask_or_raise, Plain-catch, plain_rules,
}
use mcmanager.Common.{
  ℕ, zero, suc, String, Bool, true, false, not, ◌||◌, Option, none, some, ◌≡◌, ◌≢◌, ◌≤◌, ◌+◌, ◌*◌,
  ◌/◌, leb, ltb, refl, sym, Result, ok, err, arith, subst, ltb→lt,
}
use mcmanager.Domain.Values.{ServerType, ServerReadinessLevel, rank}
use mcmanager.Worlds.Store.{WorldRow, ProcessHandle, Services, Host}
use mcmanager.Worlds.Exec.{
  Raised, out_of_fuel, start_timeout, Exec, raise, modify, ◌>>◌, sleep, monotonic,
}
use mcmanager.Worlds.Exec.Keeps.{Keeps, Timeless, Keeps-ask_or_raise}
use mcmanager.Worlds.Readiness.{
  Rcon, start_readiness_timeout, wait_exit, wait_for_exit, teardown, after_connect, reach, consult,
  rcon_round, await, await_readiness,
}
use mcmanager.Worlds.Kept.Readiness.{teardown-Keeps, rcon_round-Keeps}

module _ (host : Host) where
  Plain-teardown : (handle : ProcessHandle) (deadline : ℕ) → Plain (teardown host handle deadline)
  unfolding teardown
  Plain-teardown handle deadline =
      Plain-bind _ _
        (Plain-catch _ _ (Plain-bind _ _ (Plain-ask_or_raise _) (λ r. Plain-pure tt))
          (λ e h. Plain-bind _ _ (Plain-ask_or_raise _) (λ _. Fine-raise e h)))
        (λ _. Plain-ask_or_raise _)

  Plain-after_connect :
      (c : Rcon) (answer : Option (Unit {0})) → Plain (after_connect host c answer)
  unfolding after_connect
  Plain-after_connect c none = search plain_rules
  Plain-after_connect c (some _) = search plain_rules depth 8

  Plain-reach : (c : Rcon) → Plain (reach host c)
  unfolding reach
  Plain-reach c = search (plain_rules, Plain-after_connect) depth 12

  Plain-consult : (server_type : ServerType) (c : Rcon) → Plain (consult host server_type c)
  unfolding consult
  Plain-consult server_type c = search plain_rules depth 12

  Plain-rcon_round :
      (server_type : ServerType) (configured : Bool) (c : Rcon)
      → Plain (rcon_round host server_type configured c)
  unfolding rcon_round
  Plain-rcon_round server_type configured c =
      search (plain_rules, Plain-reach, Plain-consult) depth 12

still_early : (a b : Bool) → (not a || not b) ≡ false → a ≡ true
still_early true b h = refl
still_early false b h = sym h

not_late : (a : Bool) → not a ≡ false → a ≡ true
not_late true h = refl
not_late false h = sym h

module _ (host : Host) (forward : (m n : ℕ) → m ≤ n → host.elapsed m ≤ host.elapsed n) where
  -- what the clock shows
  abbrev clock_of : Services → ℕ
  clock_of s = host.elapsed s.step + s.slept

  abbrev Since : ℕ → Services → Type 0
  Since now s = now ≤ clock_of s

  Since-Timeless : (now : ℕ) → Timeless (Since now)
  Since-Timeless now s step slept p q h = let r = forward s.step step p in omega arith

  -- what is left reaches the deadline
  abbrev Near : ℕ → ℕ → Services → Type 0
  Near deadline left s = deadline ≤ clock_of s + left

  abbrev Read : ℕ → ℕ → ℕ → Services → Type 0
  Read deadline left now s = (deadline ≤ now + left) × Since now s

  Read-Timeless : (deadline left now : ℕ) → Timeless (Read deadline left now)
  Read-Timeless deadline left now s step slept p q (near, h) =
      (near, Since-Timeless now s step slept p q h)

  monotonic-Read :
      (deadline left : ℕ) → Fine (Near deadline left) (monotonic host) (Read deadline left)
  unfolding monotonic
  monotonic-Read deadline left = record {
    at = λ s h. (
      h,
      Since-Timeless (clock_of s) s (suc s.step) s.slept (omega arith) (omega arith) (omega arith),
    );
  }

  -- a pause takes its time off
  nap :
      (deadline pause left now : ℕ)
      → Fine (Read deadline (pause + left) now) (sleep pause) (λ _. Near deadline left)
  unfolding sleep modify
  nap deadline pause left now = record { at = λ s (near, h). omega arith }

  -- a plain method of a round
  round :
      {A : Type 0} (deadline left now : ℕ) (m : Exec A)
      → Plain m
      → Keeps (Read deadline left now) m
      → Fine (Read deadline left now) m (λ a. Read deadline left now)
  round deadline left now m p k = Fine-Keeps m p k

  -- with no time left, the deadline has come
  too_late :
      {A : Type 0} {Q : A → Services → Type 0} (deadline now : ℕ) (m : Exec A)
      → ltb now deadline ≡ true
      → Fine (Read deadline 0 now) m Q
  too_late deadline now m early = record {
    at = λ s (near, h). let lt = ltb→lt now deadline early in absurd (omega arith);
  }

  wait_exit-Fine :
      (naps : ℕ) (handle : ProcessHandle) (deadline : ℕ)
      → Fine
          (Near deadline (500 * naps))
          (wait_exit host (suc naps) handle deadline)
          (λ _. Anywhere)
  unfolding wait_exit
  wait_exit-Fine zero handle deadline = Fine-bind _ _ (monotonic-Read deadline 0) (λ now.
      Fine-bind _ _
        (round deadline 0 now _ (Plain-ask_or_raise _)
          (Keeps-ask_or_raise (Read-Timeless deadline 0 now) _))
        (λ status.
          Fine-if (not (ltb now deadline) || not status.alive) _ _
            (λ _. Fine-pure (not status.alive) (λ s h. tt))
            (λ h. too_late deadline now _ (still_early _ (status.alive) h))))
  wait_exit-Fine (suc naps) handle deadline =
      let left = 500 * suc naps in
      Fine-bind _ _ (monotonic-Read deadline left) (λ now.
        Fine-bind _ _
          (round deadline left now _ (Plain-ask_or_raise _)
            (Keeps-ask_or_raise (Read-Timeless deadline left now) _))
          (λ status.
            Fine-if (not (ltb now deadline) || not status.alive) _ _
              (λ _. Fine-pure (not status.alive) (λ s h. tt))
              (λ h.
                Fine-bind _ _
                  (Fine-weaken _ (nap deadline 500 (500 * naps) now)
                    (λ s (near, k). (omega arith, k)))
                  (λ _. wait_exit-Fine naps handle deadline))))

  pub wait_for_exit-Fine :
      (handle : ProcessHandle) (timeout : ℕ)
      → Fine Anywhere (wait_for_exit host handle timeout) (λ _. Anywhere)
  unfolding wait_for_exit
  wait_for_exit-Fine handle timeout =
      Fine-bind _ _ (Fine-weaken _ (monotonic-Read 0 0) (λ s h. omega arith)) (λ now.
        Fine-weaken _ (wait_exit-Fine (suc (timeout / 500)) handle (now + timeout))
          (λ s (near, h). omega arith))

  round_Plain :
      (row : WorldRow) (configured : Bool) (c : Rcon)
      → Plain (rcon_round host row.server_type configured c)
  round_Plain row configured c = Plain-rcon_round host row.server_type configured c

  -- a round that is late raises
  late :
      {Q : ServerReadinessLevel → Services → Type 0} (deadline left now : ℕ)
      (handle : ProcessHandle)
      → Fine (Read deadline left now) (teardown host handle 0 >> raise start_timeout) Q
  late deadline left now handle =
      Fine-bind _ _
        (round deadline left now _ (Plain-teardown host handle 0)
          (teardown-Keeps host _ (Read-Timeless deadline left now) handle 0))
        (λ _. Fine-raise start_timeout tt)

  await-Fine :
      (naps : ℕ) (row : WorldRow) (handle : ProcessHandle) (configured : Bool) (deadline : ℕ)
      (c : Rcon)
      → Fine
          (Near deadline (250 * naps))
          (await host (suc naps) row handle configured deadline c)
          (λ _. Anywhere)
  unfolding await
  await-Fine zero row handle configured deadline c =
      Fine-bind _ _ (monotonic-Read deadline 0) (λ now.
        Fine-if (not (ltb now deadline)) _ _ (λ _. late deadline 0 now handle)
          (λ h. too_late deadline now _ (not_late (ltb now deadline) h)))
  await-Fine (suc naps) row handle configured deadline c =
      let left = 250 * suc naps in
      Fine-bind _ _ (monotonic-Read deadline left) (λ now.
        let free = Read-Timeless deadline left now in
        Fine-if (not (ltb now deadline)) _ _ (λ _. late deadline left now handle)
          (λ h.
            Fine-bind _ _
              (round deadline left now _ (Plain-ask_or_raise _) (Keeps-ask_or_raise free _))
              (λ status.
                Fine-if (not status.alive) _ _ (λ _. Fine-raise start_timeout tt)
                  (λ alive.
                    Fine-bind _ _
                      (round deadline left now _ (round_Plain row configured c)
                        (rcon_round-Keeps host _ free row.server_type configured c))
                      (λ c'.
                        Fine-bind _ _
                          (round deadline left now _ (Plain-ask_or_raise _)
                            (Keeps-ask_or_raise free _))
                          (λ level.
                            Fine-if (leb (rank (host.target_level row.server_type)) (rank level)) _
                              _ (λ _. Fine-pure level (λ s h. tt))
                              (λ low.
                                Fine-bind _ _
                                  (Fine-weaken _ (nap deadline 250 (250 * naps) now)
                                    (λ s (near, k). (omega arith, k)))
                                  (λ _. await-Fine naps row handle configured deadline c'))))))))

  pub await_readiness-Fine :
      (row : WorldRow) (handle : ProcessHandle) (rcon_port : ℕ) (password : String)
      → Fine Anywhere (await_readiness host row handle rcon_port password) (λ _. Anywhere)
  unfolding await_readiness
  await_readiness-Fine row handle rcon_port password =
      Fine-bind _ _ (Fine-weaken _ (monotonic-Read 0 0) (λ s h. omega arith)) (λ now.
        Fine-weaken _ (await-Fine 480 row handle _ (now + start_readiness_timeout) _)
          (λ s (near, h). omega arith))

abbrev IsFueled : {A : Type 0} → Result Raised A → Type 0
IsFueled (ok a) = Unit
IsFueled (err e) = NotFuel e

not_run_out :
    {A : Type 0} (r : Result Raised A × Services)
    → Fueled (λ (a : A). Anywhere) r
    → r.0 ≢ err out_of_fuel
not_run_out (ok a, s) h q = cc q
not_run_out {A} (err e, s) h q = subst (λ (r : Result Raised A). IsFueled r) q h

-- If the clock of the host never goes back, the wait for a server that starts and the wait for the exit
-- of a process end: the fuel of their loops is never used up.
pub waits_end :
    (host : Host) (forward : (m n : ℕ) → m ≤ n → host.elapsed m ≤ host.elapsed n) (row : WorldRow)
    (handle : ProcessHandle) (rcon_port : ℕ) (password : String) (timeout : ℕ) (s : Services)
    → ((await_readiness host row handle rcon_port password s).0 ≢ err out_of_fuel)
      × ((wait_for_exit host handle timeout s).0 ≢ err out_of_fuel)
waits_end host forward row handle rcon_port password timeout s = (
  not_run_out (await_readiness host row handle rcon_port password s)
      ((await_readiness-Fine host forward row handle rcon_port password).at s tt),
  not_run_out (wait_for_exit host handle timeout s)
      ((wait_for_exit-Fine host forward handle timeout).at s tt),
)
