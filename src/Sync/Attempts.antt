-- ===== src/Sync/Attempts.antt =====
-- The loop over the attempts of a transfer (app/services/sync.py).
use mcmanager.Common.{ℕ, Bool, true, false, List, [], ◌∷◌, ◌+◌}
use mcmanager.Sync.Rows.{succeeded, failed_transient, failed_permanent, SyncAttempt}

abbrev pub total : List ℕ → ℕ
total [] = 0
total (x ∷ xs) = x + total xs

abbrev pub number : SyncAttempt → ℕ
number a = a.attempt_number

abbrev pub is_success : SyncAttempt → Bool
is_success a = elim a.outcome [
  | succeeded ↦ true
  | failed_transient ↦ false
  | failed_permanent ↦ false
]
