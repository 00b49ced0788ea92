-- ===== src/Realtime/Queues.antt =====
-- The queues of the subscribers (app/services/realtime.py): their bound, and what a new one holds.
use mcmanager.Common.{string_eq, nat_eq, ◌≤◌, length, All}
use mcmanager.Realtime.Hub.{queue_size, Hub, Heap}

-- no queue is longer than its size
abbrev pub Bounded : Heap → Type 0
Bounded heap = All (λ e. length e.1.queue ≤ queue_size) heap
