-- ===== src/Tailing/Examples.antt =====
-- Lines of a concrete buffer (app/platform/process/tailing.py).
use mcmanager.Common.{List, [], ◌∷◌, ◌≡◌, ◌+◌, refl, length, arith}
use mcmanager.Ring.{Consecutive, push_bounded}
use mcmanager.Tailing.Buffer.{new_buffer, append, tail, trimmed, subscribe, unsubscribe}
use mcmanager.Tailing.Replay.{BufferCall, add, join, leave, run, perform, line_no, tail_complete}

abbrev calls : List BufferCall
calls = add "a" ∷ join 1 ∷ add "b" ∷ add "c" ∷ leave 1 ∷ []

tail_complete_example :
    Consecutive line_no 1 (tail 1 (run calls (new_buffer 2)))
    × (1 + length (tail 1 (run calls (new_buffer 2))) ≡ (run calls (new_buffer 2)).next_line_no)
unfolding run perform append subscribe unsubscribe trimmed push_bounded
tail_complete_example =
    tail_complete calls (new_buffer 2) 1 (refl, (refl, (refl, (refl, (refl, tt)))))
      (record { first = 0; ends = refl; run = tt; fits = omega arith }, omega arith, λ e. refl) refl
      (omega arith)
