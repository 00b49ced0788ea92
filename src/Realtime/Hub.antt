-- ===== src/Realtime/Hub.antt =====
-- `RealtimeHub`, `StreamSubscriber` and `LogFanout` of app/services/realtime.py. A subscriber is shared
-- by the hub and the request that reads it, so the hub holds references and `heap` the subscribers.
use mcmanager.Common.{
  ℕ, suc, String, string_eq, Bool, true, false, not, Option, none, some, List, [], ◌∷◌, ◌++◌, ◌==◌,
  nat_eq, option_eq, if◌then◌else◌, ltb, filter, length, lookup, insert,
}
use mcmanager.Ring.{push_bounded}

-- `StreamEvent`; the data is the text of its JSON
pub record StreamEvent : Type 0 where
  pub sequence : ℕ
  pub event : String
  pub payload : String

-- an entry of a queue: a frame, or the `None` that ends the stream
abbrev pub Entry : Type 0
Entry = Option StreamEvent

-- `StreamSubscriber`
pub record Subscriber : Type 0 where
  pub queue : List Entry
  pub closed : Bool

abbrev pub queue_size : ℕ
queue_size = 200

-- put_nowait: a full queue refuses
abbrev pub put_nowait : Entry → Subscriber → Option Subscriber
put_nowait entry sub =
    if ltb (length sub.queue) queue_size
    then some (record sub { queue = sub.queue ++ entry ∷ [] })
    else none

abbrev or_same : Subscriber → Option Subscriber → Subscriber
or_same sub none = sub
or_same sub (some new) = new

-- `StreamSubscriber.close`
unfoldable pub close : Subscriber → Subscriber
close sub =
    if sub.closed
    then sub
    else let sub' : Subscriber = record sub { closed = true } in or_same sub' (put_nowait none sub')

abbrev put_open : Subscriber → Option Subscriber → Subscriber × Bool
put_open sub none = (close sub, false)
put_open sub (some new) = (new, true)

-- `StreamSubscriber.put`
unfoldable pub put : StreamEvent → Subscriber → Subscriber × Bool
put event sub = if sub.closed then (sub, false) else put_open sub (put_nowait (some event) sub)

-- `RealtimeHub`
pub record Hub : Type 0 where
  pub replay_limit : ℕ
  pub next_sequence : List (String × ℕ)
  pub buffers : List (String × List StreamEvent)
  pub subscribers : List (String × List ℕ)
  pub heap : List (ℕ × Subscriber)
  pub closed : Bool

abbrev pub new_hub : ℕ → Hub
new_hub replay_limit = record {
  replay_limit = replay_limit;
  next_sequence = [];
  buffers = [];
  subscribers = [];
  heap = [];
  closed = false;
}

abbrev pub or_one : Option ℕ → ℕ
or_one none = 1
or_one (some n) = n

abbrev pub or_none {ℓ} : {A : Type ℓ} → Option (List A) → List A
or_none none = []
or_none (some xs) = xs

unfoldable pub buffer_of : String → Hub → List StreamEvent
unfolding lookup
buffer_of stream hub = or_none (lookup stream hub.buffers)

unfoldable pub sequence_of : String → Hub → ℕ
unfolding lookup
sequence_of stream hub = or_one (lookup stream hub.next_sequence)

-- the event's number, and its place in the replay buffer
unfoldable pub record_event : String → StreamEvent → Hub → Hub
unfolding buffer_of insert push_bounded
record_event stream event hub = record hub {
  next_sequence = insert stream (suc event.sequence) hub.next_sequence;
  buffers = insert stream (push_bounded hub.replay_limit (buffer_of stream hub) event) hub.buffers;
}

abbrev pub Heap : Type 0
Heap = List (ℕ × Subscriber)

abbrev put_found : ℕ → StreamEvent → Heap → Option Subscriber → Heap × Bool
put_found id event heap none = (heap, false)
put_found id event heap (some sub) =
    let result = put event sub in (insert id result.0 heap, result.1)

-- `put` on a subscriber that the hub refers to
unfoldable pub put_at : ℕ → StreamEvent → Heap → Heap × Bool
put_at id event heap = put_found id event heap (lookup id heap)

-- the loop of `publish`: the subscribers that took the frame remain
unfoldable pub fan_out : StreamEvent → List ℕ → Heap → Heap × List ℕ
unfolding put_at
fan_out event [] heap = (heap, [])
fan_out event (id ∷ ids) heap =
    let result = put_at id event heap in
    let rest = fan_out event ids result.0 in (rest.0, if result.1 then id ∷ rest.1 else rest.1)

-- `RealtimeHub.publish`
unfoldable pub publish : String → String → String → Hub → Hub × StreamEvent
unfolding sequence_of record_event fan_out lookup insert
publish stream name payload hub =
    let event : StreamEvent = record {
      sequence = sequence_of stream hub;
      event = name;
      payload = payload;
    } in
    let hub' = record_event stream event hub in
    let result = fan_out event (or_none (lookup stream hub.subscribers)) hub.heap in
    (record hub' { heap = result.0; subscribers = insert stream result.1 hub.subscribers }, event)

-- `RealtimeHub.replay`
unfoldable pub replay : String → Option ℕ → Hub → List StreamEvent
unfolding buffer_of
replay stream none hub = buffer_of stream hub
replay stream (some last_event_id) hub =
    filter (λ event. ltb last_event_id event.sequence) (buffer_of stream hub)

unfoldable pub put_all : List StreamEvent → Subscriber → Subscriber
unfolding put
put_all [] sub = sub
put_all (event ∷ events) sub = put_all events (put event sub).0

-- `RealtimeHub.subscribe`, of a new subscriber
unfoldable pub subscribe : ℕ → String → Option ℕ → Hub → Hub
unfolding replay put_all lookup insert
subscribe id stream last_event_id hub = record hub {
  subscribers = insert stream (or_none (lookup stream hub.subscribers) ++ id ∷ []) hub.subscribers;
  heap =
      insert id (put_all (replay stream last_event_id hub) (record { queue = []; closed = false }))
        hub.heap;
}

abbrev close_found : ℕ → Heap → Option Subscriber → Heap
close_found id heap none = heap
close_found id heap (some sub) = insert id (close sub) heap

unfoldable pub close_at : ℕ → Heap → Heap
close_at id heap = close_found id heap (lookup id heap)

abbrev without : ℕ → String → Option (List ℕ) → List (String × List ℕ) → List (String × List ℕ)
without id stream none subscribers = subscribers
without id stream (some ids) subscribers =
    insert stream (filter (λ item. not (item == id)) ids) subscribers

-- `RealtimeHub.unsubscribe`
unfoldable pub unsubscribe : ℕ → String → Hub → Hub
unfolding close_at lookup insert
unsubscribe id stream hub = record hub {
  heap = close_at id hub.heap;
  subscribers = without id stream (lookup stream hub.subscribers) hub.subscribers;
}

-- `RealtimeHub.subscriber_count`
unfoldable pub subscriber_count : String → Hub → ℕ
unfolding lookup
subscriber_count stream hub = length (or_none (lookup stream hub.subscribers))

-- a last frame, and the end of the stream
unfoldable pub end_all : StreamEvent → List ℕ → Heap → Heap
unfolding put_at close_at
end_all event [] heap = heap
end_all event (id ∷ ids) heap = end_all event ids (close_at id (put_at id event heap).0)

unfoldable pub shutdown_streams : List (String × List ℕ) → Hub → Hub
unfolding sequence_of record_event end_all
shutdown_streams [] hub = hub
shutdown_streams ((stream, ids) ∷ more) hub =
    let event : StreamEvent = record {
      sequence = sequence_of stream hub;
      event = "manager.shutdown";
      payload = "{}";
    } in
    let hub' = record_event stream event hub in
    shutdown_streams more (record hub' { heap = end_all event ids hub'.heap })

-- `RealtimeHub.shutdown`
unfoldable pub shutdown : Hub → Hub
unfolding shutdown_streams
shutdown hub =
    if hub.closed
    then hub
    else let hub' = shutdown_streams hub.subscribers (record hub { closed = true }) in
      record hub' { subscribers = [] }
