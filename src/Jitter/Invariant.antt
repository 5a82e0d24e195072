-- ===== src/Jitter/Invariant.antt =====
-- The invariant of the buffer of src/jitter_buffer.cpp.
use distributed_audio_system.Audio.{AudioFormat, AudioFrame}
use distributed_audio_system.Audio.Laws.{IsFrame}
use distributed_audio_system.Jitter.{
  BufferState, JitterBuffer, JitterBufferStatistics, JitterConfig, buffering, draining,
  empty_buffer, forward_distance, jitter_buffer, reset,
}
use distributed_audio_system.Prelude.{
  All, Bool, OfOption, Option, [], arith, false, length, none, refl, some, subst, sym, ℕ, ◌<◌, ◌^◌,
  ◌∙◌, ◌≡◌, ◌≤◌,
}
use distributed_audio_system.Prelude.Int.{ℤ}
use distributed_audio_system.Prelude.Map.{Distinct, nat_key}

-- An entry is filed under its frame's number, less than 2 ^ 63 ahead of the next one to play.
abbrev pub InWindow : ℕ → ℕ × AudioFrame → Type 0
InWindow next (k, f) =
    (f.sequence_number ≡ k) × (k < 2 ^ 64) × (forward_distance next k < 2 ^ 63) × IsFrame f

-- Frames and format go together.
abbrev pub HasFormat : Option AudioFormat → ℕ × AudioFrame → Type 0
HasFormat format (k, f) = format ≡ some f.format

-- Both are there or neither is.
abbrev pub Paired : Option AudioFormat → Option ℤ → Type 0
Paired none none = Unit
Paired none (some d) = ⊥
Paired (some f) none = ⊥
Paired (some f) (some d) = Unit

pub record ConfigValid (c : JitterConfig) : Type 0 where
  pub target_positive : 0 < c.prebuffer_target
  pub target_bounded : c.prebuffer_target ≤ c.capacity

-- The map and the next number.
pub record MapInv (b : JitterBuffer) : Type 0 where
  pub next_fits : b.next_sequence < 2 ^ 64
  pub distinct : Distinct b.frames
  pub window : All (InWindow b.next_sequence) b.frames
  pub formats : All (HasFormat b.format) b.frames
  pub paired : Paired b.format b.duration
  pub previous : OfOption IsFrame b.previous_frame
  pub started : b.sequence_initialized ≡ false → b.frames ≡ []

-- The sizes and the state.
pub record SizeInv (b : JitterBuffer) : Type 0 where
  pub valid : ConfigValid b.config
  pub room : length b.frames ≤ b.capacity
  pub filling : b.state ≡ buffering → length b.frames < b.prebuffer_target
  pub drains : b.state ≡ draining → 0 < length b.frames
  pub depth : b.statistics.current_depth ≡ length b.frames
  pub deepest : b.statistics.current_depth ≤ b.statistics.maximum_depth
  pub bounded : b.statistics.maximum_depth ≤ b.capacity

pub record Inv (b : JitterBuffer) : Type 0 where
  pub map_inv : MapInv b
  pub size_inv : SizeInv b

pub empty_buffer-Inv : (c : JitterConfig) → ConfigValid c → Inv (empty_buffer c)
empty_buffer-Inv c v = record {
  map_inv = record {
    next_fits = omega arith;
    distinct = tt;
    window = tt;
    formats = tt;
    paired = tt;
    previous = tt;
    started = λ _. refl;
  };
  size_inv = record {
    valid = v;
    room = omega arith;
    filling = λ _. v.target_positive;
    drains = λ e. cc;
    depth = refl;
    deepest = omega arith;
    bounded = omega arith;
  };
}

pub jitter_buffer-Inv : (c : JitterConfig) (b : JitterBuffer) → jitter_buffer c ≡ some b → Inv b
unfolding jitter_buffer
jitter_buffer-Inv c b e =
    let (valid, fresh) = parts in subst Inv (sym fresh) (empty_buffer-Inv c valid)
  where
    parts : ConfigValid c × (b ≡ empty_buffer c)
    parts = (ground arith, ground arith)

pub reset-Inv : (b : JitterBuffer) → Inv b → Inv (reset b)
unfolding reset
reset-Inv b v = record {
  map_inv = record {
    next_fits = omega arith;
    distinct = tt;
    window = tt;
    formats = tt;
    paired = tt;
    previous = tt;
    started = λ _. refl;
  };
  size_inv = record {
    valid = v.size_inv.valid;
    room = omega arith;
    filling = λ _. v.size_inv.valid.target_positive;
    drains = λ e. cc;
    depth = refl;
    deepest = omega arith;
    bounded = omega arith;
  };
}

-- The map's half of the invariant reads neither the statistics nor the state.
pub same_map :
    (b : JitterBuffer) (s : JitterBufferStatistics) (state : BufferState)
    → MapInv b
    → MapInv (record b { statistics = s; state = state })
same_map b s state v = record {
  next_fits = v.next_fits;
  distinct = v.distinct;
  window = v.window;
  formats = v.formats;
  paired = v.paired;
  previous = v.previous;
  started = v.started;
}

-- A change of the counters other than the two depths.
pub recount-Inv :
    (b : JitterBuffer) (s : JitterBufferStatistics)
    → s.current_depth ≡ b.statistics.current_depth
    → s.maximum_depth ≡ b.statistics.maximum_depth
    → Inv b
    → Inv (record b { statistics = s })
recount-Inv b s d m v = record {
  map_inv = same_map b s b.state v.map_inv;
  size_inv = record {
    valid = v.size_inv.valid;
    room = v.size_inv.room;
    filling = v.size_inv.filling;
    drains = v.size_inv.drains;
    depth = d ∙ v.size_inv.depth;
    deepest = omega (arith, v.size_inv.deepest);
    bounded = omega (arith, v.size_inv.bounded);
  };
}

-- A change of what the buffer waits for, and a stop.
pub rewait-Inv :
    (b : JitterBuffer) (waits : Bool) (deadline : ℤ)
    → Inv b
    → Inv (record b { waiting_for_missing = waits; missing_deadline = deadline })
rewait-Inv b waits deadline v = record {
  map_inv = record {
    next_fits = v.map_inv.next_fits;
    distinct = v.map_inv.distinct;
    window = v.map_inv.window;
    formats = v.map_inv.formats;
    paired = v.map_inv.paired;
    previous = v.map_inv.previous;
    started = v.map_inv.started;
  };
  size_inv = record {
    valid = v.size_inv.valid;
    room = v.size_inv.room;
    filling = v.size_inv.filling;
    drains = v.size_inv.drains;
    depth = v.size_inv.depth;
    deepest = v.size_inv.deepest;
    bounded = v.size_inv.bounded;
  };
}

pub stop-Inv : (b : JitterBuffer) → Inv b → Inv (record b { state = BufferState.stopped })
stop-Inv b v = record {
  map_inv = same_map b b.statistics BufferState.stopped v.map_inv;
  size_inv = record {
    valid = v.size_inv.valid;
    room = v.size_inv.room;
    filling = λ e. cc;
    drains = λ e. cc;
    depth = v.size_inv.depth;
    deepest = v.size_inv.deepest;
    bounded = v.size_inv.bounded;
  };
}
