-- ===== src/Frames/Jump.antt =====
-- The instruction counter of a frame goes up by one at every jump and every step.
use retrace_cpython.Base.{ℕ, ◌≡◌, arith, ◌+◌, ◌^◌, ◌<◌}
use retrace_cpython.Words.Arith.{add64}
use retrace_cpython.Frames.{Frame, positive_part, frame_coordinate, coordinate_jump}

abbrev pub at : Frame → ℕ → Frame
at frame lasti = record frame { lasti = lasti }

-- The instruction counter with its sign, when it is not negative.
abbrev pub counter : Frame → ℕ
counter frame = add64 frame.retrace.coordinate_bias frame.lasti

-- The frame's bias is a 64-bit word, its instruction offset fits its code, and its counter is not
-- negative and below `limit`.
pub record Counting (limit : ℕ) (frame : Frame) : Type 0 where
  pub bias : frame.retrace.coordinate_bias < 2 ^ 64
  pub offset : frame.lasti < 2 ^ 31
  pub below : counter frame < limit

-- What the interpreter does to the counter of a frame: it goes on by some code units, or jumps. The
-- number is what the counter should gain.
pub data Moves : ℕ → Frame → Frame → Type 0 where
  rests : {frame : Frame} → Moves 0 frame frame
  forward :
      {n : ℕ} {frame frame' : Frame} (step : ℕ)
      → frame.lasti + step < 2 ^ 31
      → Moves n (at frame (frame.lasti + step)) frame'
      → Moves (step + n) frame frame'
  jumps :
      {n : ℕ} {frame frame' : Frame} (to : ℕ)
      → to < 2 ^ 31
      → Moves n (at (coordinate_jump frame frame.lasti to) to) frame'
      → Moves (1 + n) frame frame'

jump-next :
    {limit : ℕ} {frame : Frame} (to : ℕ)
    → Counting limit frame
    → limit < 2 ^ 63
    → to < 2 ^ 31
    → Counting (limit + 1) (at (coordinate_jump frame frame.lasti to) to)
      × (frame_coordinate (at (coordinate_jump frame frame.lasti to) to)
          ≡ frame_coordinate frame + 1)
unfolding coordinate_jump frame_coordinate positive_part
jump-next {limit} {frame} to c small short = (
  record { bias = omega arith; offset = short; below = omega (arith, c.below, c.bias, c.offset) },
  ground (arith, c.below, c.bias, c.offset),
)

forward-next :
    {limit : ℕ} {frame : Frame} (step : ℕ)
    → Counting limit frame
    → limit + step < 2 ^ 63
    → frame.lasti + step < 2 ^ 31
    → Counting (limit + step) (at frame (frame.lasti + step))
      × (frame_coordinate (at frame (frame.lasti + step)) ≡ frame_coordinate frame + step)
unfolding frame_coordinate positive_part
forward-next {limit} {frame} step c small short = (
  record { bias = c.bias; offset = short; below = omega (arith, c.below, c.bias, c.offset) },
  ground (arith, c.below, c.bias, c.offset),
)

-- While a frame goes on by some code units or jumps any number of times, from a counter that is
-- not negative and with no overflow of 63 bits, its coordinate grows by exactly the code units
-- and by one for each jump.
pub frame_coordinate-Moves :
    {n : ℕ} {frame frame' : Frame} {limit : ℕ}
    → Moves n frame frame'
    → Counting limit frame
    → limit + n < 2 ^ 63
    → frame_coordinate frame' ≡ frame_coordinate frame + n
frame_coordinate-Moves rests c small = omega arith
frame_coordinate-Moves {limit = limit} (forward {n} step short moves) c small =
    let (c', gain) = forward-next step c (omega (arith, small)) short in
    omega
      (arith, gain, frame_coordinate-Moves {limit = limit + step} moves c' (omega (arith, small)))
frame_coordinate-Moves {limit = limit} (jumps {n} to short moves) c small =
    let (c', gain) = jump-next to c (omega (arith, small)) short in
    omega (arith, gain, frame_coordinate-Moves {limit = limit + 1} moves c' (omega (arith, small)))
