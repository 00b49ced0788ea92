-- ===== src/Realtime/Sequences.antt =====
-- The numbers of the events of a stream, and what a reconnecting client is sent
-- (app/services/realtime.py).
use mcmanager.Common.{
  ℕ, suc, String, string_eq, Bool, true, false, Option, some, List, [], ◌∷◌, ◌≡◌, refl, sym, ap,
  ◌∙◌, ◌+◌, ◌≤◌, ◌<◌, ◌==◌, arith, leb, ltb, filter, length, Bool-cases, inl, inr, lookup-insert,
  if◌then◌else◌, subst,
}
use mcmanager.Ring.{Window, Window-push, Consecutive, read_from, push_bounded}
use mcmanager.Realtime.Hub.{
  StreamEvent, Hub, new_hub, or_one, or_none, buffer_of, sequence_of, record_event, publish, replay,
  subscribe, unsubscribe, shutdown_streams, shutdown,
}

-- an operation on the hub
pub data HubCall : Type 0 where
  emit : String → String → String → HubCall
  join : ℕ → String → Option ℕ → HubCall
  leave : ℕ → String → HubCall
  stop : HubCall

unfoldable pub perform : HubCall → Hub → Hub
perform (emit stream name payload) hub = (publish stream name payload hub).0
perform (join id stream last_event_id) hub = subscribe id stream last_event_id hub
perform (leave id stream) hub = unsubscribe id stream hub
perform stop hub = shutdown hub

unfoldable pub run : List HubCall → Hub → Hub
unfolding perform
run [] hub = hub
run (c ∷ calls) hub = run calls (perform c hub)

abbrev pub number : StreamEvent → ℕ
number event = event.sequence

-- Each stream's buffer ends before the next number of the stream.
abbrev pub Numbered : Hub → Type 0
Numbered hub =
    (stream : String)
    → Window number hub.replay_limit (sequence_of stream hub) (buffer_of stream hub)

pub new_hub-Numbered : (limit : ℕ) → Numbered (new_hub limit)
unfolding sequence_of buffer_of
new_hub-Numbered limit stream = record { first = 1; ends = refl; run = tt; fits = omega arith }

module _ (stream : String) (event : StreamEvent) (hub : Hub) where
  sequence-record_event :
      (j : String)
      → sequence_of j (record_event stream event hub)
        ≡ (if stream == j then suc event.sequence else sequence_of j hub)
  unfolding sequence_of record_event
  sequence-record_event j =
      ap or_one (lookup-insert stream j (suc event.sequence) hub.next_sequence)
      ∙ elim (Bool-cases (stream == j)) [ inl e ↦ rw e | inr e ↦ rw e ]

  buffer-record_event :
      (j : String)
      → buffer_of j (record_event stream event hub) ≡ (
          if stream == j
          then push_bounded hub.replay_limit (buffer_of stream hub) event
          else buffer_of j hub)
  unfolding buffer_of record_event
  buffer-record_event j =
      ap or_none (
        lookup-insert stream j (push_bounded hub.replay_limit (buffer_of stream hub) event)
          hub.buffers)
      ∙ elim (Bool-cases (stream == j)) [ inl e ↦ rw e | inr e ↦ rw e ]

  record_event-Numbered :
      event.sequence ≡ sequence_of stream hub
      → Numbered hub
      → (j : String)
      → Window number hub.replay_limit
          (sequence_of j (record_event stream event hub))
          (buffer_of j (record_event stream event hub))
  record_event-Numbered is n j =
      rw (sequence-record_event j, buffer-record_event j)
        (elim (Bool-cases (stream == j)) [
          | inl e ↦ rw e (
              subst
                (λ k.
                  Window number hub.replay_limit (suc k)
                    (push_bounded hub.replay_limit (buffer_of stream hub) event))
                (sym is)
                (Window-push number hub.replay_limit (sequence_of stream hub) (buffer_of stream hub)
                  event is (n stream)))
          | inr e ↦ rw e (n j)
        ])

shutdown_streams-Numbered :
    (streams : List (String × List ℕ)) (hub : Hub)
    → Numbered hub
    → Numbered (shutdown_streams streams hub)
unfolding shutdown_streams record_event sequence_of buffer_of
shutdown_streams-Numbered [] hub n = n
shutdown_streams-Numbered ((stream, ids) ∷ more) hub n =
    shutdown_streams-Numbered more _ (record_event-Numbered stream _ hub refl n)

perform-Numbered : (c : HubCall) (hub : Hub) → Numbered hub → Numbered (perform c hub)
unfolding perform publish record_event sequence_of buffer_of subscribe unsubscribe shutdown
perform-Numbered (emit stream name payload) hub n = record_event-Numbered stream _ hub refl n
perform-Numbered (join id stream last) hub n = n
perform-Numbered (leave id stream) hub n = n
perform-Numbered stop hub n = elim (Bool-cases hub.closed) [
  | inl e ↦ rw e n
  | inr e ↦ rw e (shutdown_streams-Numbered hub.subscribers (record hub { closed = true }) n)
]

-- After any operations, the events that each stream replays have consecutive numbers up to the last
-- one that was given, and there are at most `replay_limit` of them.
pub run-Numbered : (calls : List HubCall) (hub : Hub) → Numbered hub → Numbered (run calls hub)
unfolding run
run-Numbered [] hub n = n
run-Numbered (c ∷ calls) hub n = run-Numbered calls (perform c hub) (perform-Numbered c hub n)

-- the event after the last one that a client has seen is still there, or has not been published yet
abbrev pub still_buffered : ℕ → ℕ → List StreamEvent → Bool
still_buffered last next [] = leb next (suc last)
still_buffered last next (event ∷ events) = leb event.sequence (suc last)

filter-after :
    (last : ℕ) (xs : List StreamEvent)
    → filter (λ event. ltb last event.sequence) xs
      ≡ filter (λ event. leb (suc last) (number event)) xs
filter-after last [] = refl
filter-after last (x ∷ xs) =
    let rest = filter-after last xs in
    elim (Bool-cases (ltb last x.sequence)) [
      | inl e ↦
          let e' : leb (suc last) x.sequence ≡ true = ground (arith, e) in
          rw (e, e') (ap (λ l. x ∷ l) rest)
      | inr e ↦ let e' : leb (suc last) x.sequence ≡ false = ground (arith, e) in rw (e, e') rest
    ]

Window-first :
    (limit next last : ℕ) (xs : List StreamEvent) (w : Window number limit next xs)
    → still_buffered last next xs ≡ true
    → w.first ≤ suc last
Window-first limit next last [] w h = ground (arith, w.ends, h)
Window-first limit next last (x ∷ xs) w h = let start = w.run.0 in ground (arith, start, h)

-- A client that reconnects with the last event that it has seen is sent every later event of the
-- stream once, in order, if the next one is still buffered; this after any operations.
pub replay_complete :
    (calls : List HubCall) (hub : Hub) (stream : String) (last : ℕ)
    → Numbered hub
    → still_buffered last (sequence_of stream (run calls hub)) (buffer_of stream (run calls hub))
      ≡ true
    → last < sequence_of stream (run calls hub)
    → Consecutive number (suc last) (replay stream (some last) (run calls hub))
      × (suc last + length (replay stream (some last) (run calls hub))
          ≡ sequence_of stream (run calls hub))
unfolding replay
replay_complete calls hub stream last n there seen =
    let r = run calls hub in
    let w = run-Numbered calls hub n stream in
    let found =
      read_from number r.replay_limit (sequence_of stream r) (suc last) (buffer_of stream r) w
        (Window-first r.replay_limit (sequence_of stream r) last (buffer_of stream r) w there)
        seen in
    rw (filter-after last (buffer_of stream r)) found
