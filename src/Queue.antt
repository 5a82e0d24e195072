-- ===== src/Queue.antt =====
-- `AudioBuffer` of src/audio_buffer.cpp, the bounded queue between threads. The mutex makes each
-- operation one step; `push` and `pop` wait until their condition holds, and change nothing before.
pub mod Fifo
mod Tests
use distributed_audio_system.Audio.{AudioFrame}
use distributed_audio_system.Prelude.{
  Bool, List, Option, [], false, if◌then◌else◌, leb, length, ltb, none, not, some, true, ℕ, ◌++◌,
  ◌==◌, ◌||◌, ◌∷◌,
}

pub record AudioBuffer : Type 0 where
  pub capacity : ℕ
  pub frames : List AudioFrame
  pub closed : Bool

-- The constructor; `none` is its exception.
unfoldable pub audio_buffer : ℕ → Option AudioBuffer
audio_buffer capacity =
    if capacity == 0
    then none
    else some (record { capacity = capacity; frames = []; closed = false })

abbrev pub enqueue : AudioBuffer → AudioFrame → AudioBuffer
enqueue b frame = record b { frames = b.frames ++ frame ∷ [] }

-- `none` while the call waits; else the answer.
unfoldable pub push : AudioBuffer → AudioFrame → Option (AudioBuffer × Bool)
push b frame =
    if not (b.closed || ltb (length b.frames) b.capacity)
    then none
    else if b.closed
    then some (b, false)
    else some (enqueue b frame, true)

unfoldable pub try_push : AudioBuffer → AudioFrame → AudioBuffer × Bool
try_push b frame =
    if b.closed || leb b.capacity (length b.frames) then (b, false) else (enqueue b frame, true)

unfoldable pub try_pop : AudioBuffer → AudioBuffer × Option AudioFrame
try_pop b = elim b.frames [
  | [] ↦ (b, none)
  | frame ∷ rest ↦ (record b { frames = rest }, some frame)
]

-- `none` while the call waits; else the answer.
unfoldable pub pop : AudioBuffer → Option (AudioBuffer × Option AudioFrame)
pop b = if not (b.closed || not (length b.frames == 0)) then none else some (try_pop b)

unfoldable pub close : AudioBuffer → AudioBuffer
close b = record b { closed = true }

unfoldable pub full : AudioBuffer → Bool
full b = length b.frames == b.capacity
