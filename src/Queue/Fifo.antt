-- ===== src/Queue/Fifo.antt =====
-- Runs of the queue: the calls of any number of threads, in the order in which they take effect.
use mathlib.Core.List.{append-nil, append_assoc}
use distributed_audio_system.Audio.{AudioFrame}
use distributed_audio_system.Prelude.{
  Bool, Bool-cases, List, Option, [], ap, ap₂, arith, false, inl, inr, leb, length, length-append,
  ltb, none, not, refl, some, subst, sym, true, ℕ, ◌++◌, ◌<◌, ◌==◌, ◌||◌, ◌∙◌, ◌∷◌, ◌≡◌, ◌≤◌, ◌⊎◌,
}
use distributed_audio_system.Queue.{AudioBuffer, close, enqueue, pop, push, try_pop, try_push}

pub data Call : Type 0 where
  pushing : AudioFrame → Call
  try_pushing : AudioFrame → Call
  popping : Call
  try_popping : Call
  closing : Call

-- The frames that a call put in and took out.
abbrev pub put_in : AudioFrame → Bool → List AudioFrame
put_in frame true = frame ∷ []
put_in frame false = []

abbrev pub taken_out : Option AudioFrame → List AudioFrame
taken_out none = []
taken_out (some frame) = frame ∷ []

-- The effect of `push` by its answer; none while it waits.
abbrev pub pushed :
    AudioBuffer
    → AudioFrame
    → Option (AudioBuffer × Bool)
    → AudioBuffer × List AudioFrame × List AudioFrame
pushed b frame none = (b, [], [])
pushed b frame (some (b', ok_)) = (b', put_in frame ok_, [])

-- The effect of `pop` by its answer; none while it waits.
abbrev pub popped :
    AudioBuffer
    → Option (AudioBuffer × Option AudioFrame)
    → AudioBuffer × List AudioFrame × List AudioFrame
popped b none = (b, [], [])
popped b (some (b', frame)) = (b', [], taken_out frame)

-- The queue after a call, what went in and what came out; a call that waits has no effect.
abbrev pub effect : AudioBuffer → Call → AudioBuffer × List AudioFrame × List AudioFrame
effect b (pushing frame) = pushed b frame (push b frame)
effect b (try_pushing frame) =
    let (b', accepted) = try_push b frame in (b', put_in frame accepted, [])
effect b popping = popped b (pop b)
effect b try_popping = let (b', frame) = try_pop b in (b', [], taken_out frame)
effect b closing = (close b, [], [])

pub after : AudioBuffer → List Call → AudioBuffer
after b [] = b
after b (c ∷ cs) = after (effect b c).0 cs

-- All that went in, and all that came out, in order.
unfoldable pub accepted : AudioBuffer → List Call → List AudioFrame
accepted b [] = []
accepted b (c ∷ cs) = (effect b c).1 ++ accepted (effect b c).0 cs

pub delivered : AudioBuffer → List Call → List AudioFrame
delivered b [] = []
delivered b (c ∷ cs) = (effect b c).2 ++ delivered (effect b c).0 cs

-- One call keeps the order and the bound.
record Fair (b : AudioBuffer) (r : AudioBuffer × List AudioFrame × List AudioFrame) : Type 0 where
  order : b.frames ++ r.1 ≡ r.2 ++ r.0.frames
  bound : length b.frames ≤ b.capacity → length r.0.frames ≤ r.0.capacity
  same_capacity : r.0.capacity ≡ b.capacity

idle : (b : AudioBuffer) → Fair b (b, [], [])
idle b = record { order = append-nil b.frames; bound = λ h. h; same_capacity = refl }

enqueue-Fair :
    (b : AudioBuffer) (f : AudioFrame)
    → length b.frames < b.capacity
    → Fair b (enqueue b f, f ∷ [], [])
enqueue-Fair b f h = record {
  order = refl;
  bound = λ _. omega (arith, length-append b.frames (f ∷ []));
  same_capacity = refl;
}

try_pop-Fair : (b : AudioBuffer) → Fair b ((try_pop b).0, [], taken_out (try_pop b).1)
unfolding try_pop
try_pop-Fair b = go b.frames b.capacity b.closed
  where
    go :
        (fs : List AudioFrame) (n : ℕ) (c : Bool)
        → let b : AudioBuffer = record { capacity = n; frames = fs; closed = c } in
          Fair b ((try_pop b).0, [], taken_out (try_pop b).1)
    go [] n c = idle _
    go (f ∷ fs) n c = record {
      order = append-nil (f ∷ fs);
      bound = λ h. omega arith;
      same_capacity = refl;
    }

-- What `push` comes to.
push-cases :
    (b : AudioBuffer) (f : AudioFrame)
    → (push b f ≡ none)
      ⊎ ((push b f ≡ some (b, false))
          ⊎ ((length b.frames < b.capacity) × (push b f ≡ some (enqueue b f, true))))
unfolding push
push-cases b f = elim (Bool-cases (not (b.closed || ltb (length b.frames) b.capacity))) [
  | inl waits ↦ inl (ground (arith, waits))
  | inr goes ↦ elim (Bool-cases b.closed) [
    | inl shut ↦ inr (inl (ground (arith, goes, shut)))
    | inr open_ ↦ inr (inr (ground (arith, goes, open_), ground (arith, goes, open_)))
  ]
]

effect-Fair : (b : AudioBuffer) (c : Call) → Fair b (effect b c)
unfolding try_push pop close
effect-Fair b (pushing f) = elim (push-cases b f) [
  | inl waits ↦ subst (λ r. Fair b (pushed b f r)) (sym waits) (idle b)
  | inr (inl shut) ↦ subst (λ r. Fair b (pushed b f r)) (sym shut) (idle b)
  | inr (inr (room, goes)) ↦ subst (λ r. Fair b (pushed b f r)) (sym goes) (enqueue-Fair b f room)
]
effect-Fair b (try_pushing f) = elim (Bool-cases (b.closed || leb b.capacity (length b.frames))) [
  | inl refused ↦ simp (try_push, refused) (idle b)
  | inr room ↦ simp (try_push, room) (enqueue-Fair b f (ground arith))
]
effect-Fair b popping = elim (Bool-cases (not (b.closed || not (length b.frames == 0)))) [
  | inl waits ↦
      let e : pop b ≡ none = ground (arith, waits) in
      subst (λ r. Fair b (popped b r)) (sym e) (idle b)
  | inr goes ↦
      let e : pop b ≡ some (try_pop b) = ground (arith, goes) in
      subst (λ r. Fair b (popped b r)) (sym e) (try_pop-Fair b)
]
effect-Fair b try_popping = try_pop-Fair b
effect-Fair b closing = record { order = append-nil b.frames; bound = λ h. h; same_capacity = refl }

-- The queue is first in, first out: what it held and what was accepted since is what was delivered
-- and what it holds, in this order, whatever calls the threads make; and it never holds more than
-- its capacity. To begin with it holds no more than that.
pub calls_fifo :
    (b : AudioBuffer) (cs : List Call)
    → length b.frames ≤ b.capacity
    → (b.frames ++ accepted b cs ≡ delivered b cs ++ (after b cs).frames)
      × (length (after b cs).frames ≤ b.capacity)
unfolding accepted delivered after
calls_fifo b [] h = (append-nil b.frames, h)
calls_fifo b (c ∷ cs) h =
    let one = effect-Fair b c in
    let next_ = (effect b c).0 in
    let (order, bound) = calls_fifo next_ cs (one.bound h) in
    (
      sym (append_assoc b.frames (effect b c).1 (accepted next_ cs))
          ∙ ap (λ l. l ++ accepted next_ cs) one.order
          ∙ append_assoc (effect b c).2 next_.frames (accepted next_ cs)
          ∙ ap (◌++◌ (effect b c).2) order
          ∙ sym (append_assoc (effect b c).2 (delivered next_ cs) (after next_ cs).frames),
      omega (arith, one.same_capacity),
    )

closed_effect :
    (b : AudioBuffer) (c : Call)
    → b.closed ≡ true
    → ((effect b c).1 ≡ []) × ((effect b c).0.closed ≡ true)
unfolding push try_push pop close try_pop
closed_effect b (pushing f) shut = (ground arith, ground arith)
closed_effect b (try_pushing f) shut = (ground arith, ground arith)
closed_effect b popping shut = (ground arith, ground arith)
closed_effect b try_popping shut = (ground arith, ground arith)
closed_effect b closing shut = (refl, refl)

-- A queue that is closed accepts no frame, whatever is called.
closed_accepts_nothing : (b : AudioBuffer) (cs : List Call) → b.closed ≡ true → accepted b cs ≡ []
unfolding accepted
closed_accepts_nothing b [] shut = refl
closed_accepts_nothing b (c ∷ cs) shut =
    let (none_in, still) = closed_effect b c shut in
    ap₂ ◌++◌ none_in (closed_accepts_nothing (effect b c).0 cs still)
