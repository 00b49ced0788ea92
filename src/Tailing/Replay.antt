-- ===== src/Tailing/Replay.antt =====
-- What a client reads of a line buffer after any operations on it (app/platform/process/tailing.py).
use mcmanager.Common.{
  ℕ, suc, String, Bool, true, false, List, [], ◌∷◌, ◌++◌, ◌≡◌, refl, ◌+◌, ◌-◌, ◌≤◌, arith, ltb,
  length, length-append, length-drop, drop, All, is_empty,
}
use mcmanager.Ring.{Window, Window-push, Consecutive, read_from, push_bounded}
use mcmanager.Tailing.Buffer.{
  Line, RingBuffer, append, tail, trimmed, subscribe, unsubscribe, clear,
}

-- an operation on the buffer
pub data BufferCall : Type 0 where
  add : String → BufferCall
  join leave : ℕ → BufferCall
  wipe : BufferCall

unfoldable pub perform : BufferCall → RingBuffer → RingBuffer
perform (add line) b = append line b
perform (join sub_id) b = subscribe sub_id b
perform (leave sub_id) b = unsubscribe sub_id b
perform wipe b = clear b

unfoldable pub run : List BufferCall → RingBuffer → RingBuffer
unfolding perform
run [] b = b
run (c ∷ calls) b = run calls (perform c b)

abbrev pub line_no : Line → ℕ
line_no item = item.0

abbrev pub Numbered : RingBuffer → Type 0
Numbered b = Window line_no b.maxlen b.next_line_no b.buffer

perform-Numbered : (c : BufferCall) (b : RingBuffer) → Numbered b → Numbered (perform c b)
unfolding perform append subscribe unsubscribe clear
perform-Numbered (add line) b w =
    Window-push line_no b.maxlen b.next_line_no b.buffer (b.next_line_no, line) refl w
perform-Numbered (join sub_id) b w = w
perform-Numbered (leave sub_id) b w = w
perform-Numbered wipe b w = record {
  first = b.next_line_no;
  ends = omega arith;
  run = tt;
  fits = omega arith;
}

-- After any operations the buffered lines have consecutive numbers that end before the next number, and
-- there are at most `maxlen` of them.
pub run-Numbered : (calls : List BufferCall) (b : RingBuffer) → Numbered b → Numbered (run calls b)
unfolding run
run-Numbered [] b w = w
run-Numbered (c ∷ calls) b w = run-Numbered calls (perform c b) (perform-Numbered c b w)

-- an empty buffer has lost nothing
abbrev pub Unwiped : RingBuffer → Type 0
Unwiped b = Numbered b × (1 ≤ b.maxlen) × (is_empty b.buffer ≡ true → b.next_line_no ≡ 0)

-- every operation but `clear`
abbrev pub keeps_lines : BufferCall → Bool
keeps_lines wipe = false
keeps_lines _ = true

not_empty :
    (limit : ℕ) (xs : List Line) (x : Line)
    → 1 ≤ limit
    → length xs ≤ limit
    → is_empty (push_bounded limit xs x) ≡ false
unfolding push_bounded
not_empty limit xs x one fits = by_length (drop _ (xs ++ x ∷ [])) (
    omega (
      arith,
      length-drop (suc (length xs) - limit) (xs ++ x ∷ []),
      length-append xs (x ∷ []),
      one,
      fits,
    ))
  where
    by_length : (ys : List Line) → 1 ≤ length ys → is_empty ys ≡ false
    by_length [] h = absurd (omega (arith, h))
    by_length (y ∷ ys) h = refl

true-ne-false : {P : Type 0} → (b : Bool) → b ≡ false → b ≡ true → P
true-ne-false b p q = cc (p, q)

perform-Unwiped :
    (c : BufferCall) (b : RingBuffer) → keeps_lines c ≡ true → Unwiped b → Unwiped (perform c b)
unfolding perform append subscribe unsubscribe
perform-Unwiped (add line) b k (w, one, lost) = (
  perform-Numbered (add line) b w,
  one,
  λ e. true-ne-false _ (not_empty b.maxlen b.buffer (b.next_line_no, line) one w.fits) e,
)
perform-Unwiped (join sub_id) b k h = h
perform-Unwiped (leave sub_id) b k h = h
perform-Unwiped wipe b k h = cc k

run-Unwiped :
    (calls : List BufferCall) (b : RingBuffer)
    → All (λ c. keeps_lines c ≡ true) calls
    → Unwiped b
    → Unwiped (run calls b)
unfolding run
run-Unwiped [] b k h = h
run-Unwiped (c ∷ calls) b k h = run-Unwiped calls (perform c b) k.1 (perform-Unwiped c b k.0 h)

-- the first line that is still there is not after one that `trimmed` calls present
first_present :
    (since : ℕ) (b : RingBuffer) (h : Unwiped b)
    → trimmed since b ≡ false
    → since ≤ b.next_line_no
    → h.0.first ≤ since
unfolding trimmed
first_present since b (w, one, lost) t high = by_buffer b.buffer refl
  where
    by_buffer : (xs : List Line) → b.buffer ≡ xs → w.first ≤ since
    by_buffer [] e =
        let size : length b.buffer ≡ 0 = rw e in
        let start = lost (rw e) in omega (arith, w.ends, size, start)
    by_buffer (x ∷ xs) e =
        let t' : ltb since x.0 ≡ false = rw e at t in
        let at_first = (rw e at w.run).0 in ground (arith, t', at_first)

-- A client that reads from a line on, which the buffer does not report as trimmed, gets every line from
-- there to the last one, in order, if the buffer was never cleared.
pub tail_complete :
    (calls : List BufferCall) (b : RingBuffer) (since : ℕ)
    → All (λ c. keeps_lines c ≡ true) calls
    → Unwiped b
    → trimmed since (run calls b) ≡ false
    → since ≤ (run calls b).next_line_no
    → Consecutive line_no since (tail since (run calls b))
      × (since + length (tail since (run calls b)) ≡ (run calls b).next_line_no)
unfolding tail
tail_complete calls b since k h t high =
    let r = run calls b in
    let after = run-Unwiped calls b k h in
    read_from line_no r.maxlen r.next_line_no since r.buffer after.0
      (first_present since r after t high) high
