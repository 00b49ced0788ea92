-- ===== src/Realtime/Examples.antt =====
-- Events of a concrete stream (app/services/realtime.py).
use mcmanager.Common.{string_eq, nat_eq, none, some, List, [], ◌∷◌, ◌≡◌, ◌+◌, refl, length, arith}
use mcmanager.Ring.{Consecutive, push_bounded}
use mcmanager.Realtime.Hub.{
  new_hub, replay, buffer_of, sequence_of, publish, subscribe, unsubscribe,
}
use mcmanager.Realtime.Sequences.{
  HubCall, emit, join, leave, run, perform, number, new_hub-Numbered, replay_complete,
}

-- a buffer of two events, of which the first is dropped
abbrev calls : List HubCall
calls =
    join 1 "events" none
    ∷ emit "events" "a" "{}"
    ∷ emit "events" "b" "{}"
    ∷ emit "events" "c" "{}"
    ∷ leave 1 "events"
    ∷ []

replay_complete_example :
    Consecutive number 2 (replay "events" (some 1) (run calls (new_hub 2)))
    × (2 + length (replay "events" (some 1) (run calls (new_hub 2)))
        ≡ sequence_of "events" (run calls (new_hub 2)))
unfolding run perform publish subscribe unsubscribe sequence_of buffer_of push_bounded
replay_complete_example =
    replay_complete calls (new_hub 2) "events" 1 (new_hub-Numbered 2) refl (omega arith)
