-- ===== src/Frames/Tests.antt =====
-- The counter of a frame that goes on, jumps back and goes on again.
use retrace_cpython.Base.{◌≡◌, arith, ◌+◌, false}
use retrace_cpython.Frames.{Frame, initial_frame_state, frame_coordinate, coordinate_jump}
use retrace_cpython.Frames.Jump.{at, Counting, rests, forward, jumps, frame_coordinate-Moves}

abbrev started : Frame
started = record {
  address = 1;
  lasti = 10;
  owned_by_cstack = false;
  incomplete = false;
  retrace = initial_frame_state;
}

started-Counting : Counting 11 started
unfolding initial_frame_state
started-Counting = record { bias = omega arith; offset = omega arith; below = omega arith }

frame_coordinate-Moves_example :
    frame_coordinate (at (coordinate_jump (at started 15) 15 3) 3) ≡ frame_coordinate started + 6
frame_coordinate-Moves_example =
    frame_coordinate-Moves {limit = 11} (forward 5 (omega arith) (jumps 3 (omega arith) rests))
      started-Counting (omega arith)
