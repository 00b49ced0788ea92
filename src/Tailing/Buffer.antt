-- ===== src/Tailing/Buffer.antt =====
-- `RingBuffer`, `LogRingBuffer` and `ingest_log_line` of app/platform/process/tailing.py. A
-- subscriber is its queue and its counter; the thread that drains it is not modelled.
use mcmanager.Common.{
  ℕ, suc, String, string_eq, Bool, true, false, not, ◌||◌, Option, none, some, List, [], ◌∷◌, ◌++◌,
  map, ◌==◌, nat_eq, if◌then◌else◌, leb, ltb, filter, length, lookup, insert, contains, ◌-◌,
}
use mcmanager.Ring.{push_bounded}

-- `(line_no, line)`
abbrev pub Line : Type 0
Line = ℕ × String

-- `Subscription`, before its worker takes the lines
pub record Subscription : Type 0 where
  pub sub_id : ℕ
  pub queue : List Line
  pub dropped : ℕ
  pub closed : Bool

abbrev pub queue_capacity : ℕ
queue_capacity = 256

-- `Subscription.submit`
unfoldable pub submit : Line → Subscription → Subscription
submit line sub =
    if sub.closed
    then sub
    else if ltb (length sub.queue) queue_capacity
    then record sub { queue = sub.queue ++ line ∷ [] }
    else record sub { dropped = suc sub.dropped }

-- `RingBuffer`
pub record RingBuffer : Type 0 where
  pub maxlen : ℕ
  pub buffer : List Line
  pub next_line_no : ℕ
  pub subscribers : List Subscription

abbrev pub new_buffer : ℕ → RingBuffer
new_buffer maxlen = record { maxlen = maxlen; buffer = []; next_line_no = 0; subscribers = [] }

-- `RingBuffer.append`
unfoldable pub append : String → RingBuffer → RingBuffer
unfolding push_bounded
append line b = record b {
  buffer = push_bounded b.maxlen b.buffer (b.next_line_no, line);
  next_line_no = suc b.next_line_no;
  subscribers = map (submit (b.next_line_no, line)) b.subscribers;
}

-- `RingBuffer.tail`
unfoldable pub tail : ℕ → RingBuffer → List Line
tail since_offset b = filter (λ item. leb since_offset item.0) b.buffer

-- `RingBuffer.trimmed`
unfoldable pub trimmed : ℕ → RingBuffer → Bool
trimmed since_offset b = elim b.buffer [
  | [] ↦ ltb 0 since_offset
  | ◌∷◌ item _ ↦ ltb since_offset item.0
]

-- `RingBuffer.max_line_no`; none stands for −1
unfoldable pub max_line_no : RingBuffer → Option ℕ
max_line_no b = if b.next_line_no == 0 then none else some (b.next_line_no - 1)

-- `RingBuffer.subscribe`
unfoldable pub subscribe : ℕ → RingBuffer → RingBuffer
subscribe sub_id b = record b {
  subscribers =
      b.subscribers ++ record { sub_id = sub_id; queue = []; dropped = 0; closed = false } ∷ [];
}

-- `RingBuffer.unsubscribe`: the subscription leaves the list, and is closed
unfoldable pub unsubscribe : ℕ → RingBuffer → RingBuffer
unsubscribe sub_id b = record b {
  subscribers = filter (λ sub. not (sub.sub_id == sub_id)) b.subscribers;
}

-- `RingBuffer.clear`
unfoldable pub clear : RingBuffer → RingBuffer
clear b = record b { buffer = [] }

-- `LogRingBuffer`
pub record LogRingBuffer : Type 0 where
  pub maxlen : ℕ
  pub channels : List (String × RingBuffer)

abbrev or_new : ℕ → Option RingBuffer → RingBuffer
or_new maxlen none = new_buffer maxlen
or_new maxlen (some b) = b

-- `LogRingBuffer.append`, with the `channel` that it makes
unfoldable pub append_to : String → String → LogRingBuffer → LogRingBuffer
unfolding append lookup insert
append_to channel line l = record l {
  channels = insert channel (append line (or_new l.maxlen (lookup channel l.channels))) l.channels;
}

-- The tests of a line that read regular expressions and the environment.
pub record LineTests : Type 0 where
  pub important : String → Bool
  pub debug_marker : String → Bool
  pub normal : String → String

-- `is_debug_log_line`
unfoldable pub is_debug_log_line : LineTests → String → String → Bool
is_debug_log_line tests channel line = tests.normal channel == "debug" || tests.debug_marker line

-- `_retain_log_line`
unfoldable pub retain_log_line : LineTests → Bool → String → String → Bool
retain_log_line tests verbose channel line =
    if verbose
    then true
    else if tests.important line
    then true
    else if is_debug_log_line tests channel line
    then false
    else not (contains ("stdout" ∷ "stderr" ∷ []) (tests.normal channel))

-- `ingest_log_line` on a `LogRingBuffer`, with the lines of the durable log
unfoldable pub ingest_log_line :
    LineTests
    → Bool
    → String
    → String
    → LogRingBuffer × List (String × String)
    → LogRingBuffer × List (String × String) × Bool
ingest_log_line tests verbose channel line (l, durable) =
    if retain_log_line tests verbose channel line
    then (append_to channel line l, durable ++ (channel, line) ∷ [], true)
    else (l, durable, false)
