-- ===== src/Coordinates/Cache.antt =====
-- `retrace_thread_delta_for_tstate`: retracemodule.c, lines 200 to 272.
pub mod Emit
pub mod Common
pub mod Rebuild
use retrace_cpython.Base.{
  ℕ, zero, suc, ◌+◌, ◌-◌, ◌==◌, ltb, leb, not, ◌&&◌, ◌||◌, if◌then◌else◌, Bool, true, false, Option,
  none, some, List, [], ◌∷◌, set, replicate,
}
use retrace_cpython.Frames.{
  Frame, Space, FrameState, Delta as DeltaState, frame_coordinate, frame_call_ordinal, counts_in,
  in_space, last_call_ordinal_unset,
}
use retrace_cpython.Coordinates.{coordinate_count}

-- The two tests of the first loop on a frame that counts, whose pair stands at position `at`.
unfoldable pub narrow : Frame → ℕ → ℕ → ℕ → ℕ
narrow scan space at common =
    let delta = scan.retrace.delta in
    let first : ℕ =
      if (not (in_space delta.last_delta_space space)
          || not (delta.last_instruction_counter == frame_coordinate scan))
        && ltb at common
      then at
      else common in
    if (not (in_space delta.last_delta_space space)
        || not (delta.last_call_ordinal == frame_call_ordinal scan))
      && ltb (at + 1) first
    then at + 1
    else first

-- The first loop: how many leading coordinates the last delta left unchanged.
unfoldable pub common_loop : List Frame → ℕ → ℕ → ℕ → ℕ
unfolding narrow
common_loop [] space position common = common
common_loop (scan ∷ frames) space position common =
    common_loop frames space (if counts_in scan space then position - 2 else position)
      (if counts_in scan space then narrow scan space (position - 2) common else common)

-- `position >= common_count` guards each write of the second loop.
unfoldable pub write_delta : ℕ → ℕ → ℕ → List ℕ → List ℕ
write_delta position common value delta =
    if leb common position then set delta (1 + position - common) value else delta

unfoldable pub emit_loop : List Frame → ℕ → ℕ → ℕ → List ℕ → List ℕ
unfolding write_delta
emit_loop [] space position common delta = delta
emit_loop (scan ∷ frames) space position common delta =
    let at = position - 2 in
    let written =
      write_delta (at + 1) common (frame_call_ordinal scan)
        (write_delta at common (frame_coordinate scan) delta) in
    emit_loop frames space (if counts_in scan space then at else position) common
      (if counts_in scan space then written else delta)

-- What the second loop leaves in a frame that counts.
unfoldable pub remember : Frame → ℕ → Frame
remember scan space =
    let delta : DeltaState = record {
      last_call_ordinal = frame_call_ordinal scan;
      last_instruction_counter = frame_coordinate scan;
      last_delta_space = some space;
    } in
    let state : FrameState = record scan.retrace { delta = delta } in
    record scan { retrace = state }

unfoldable pub remember_frames : List Frame → ℕ → List Frame
unfolding remember
remember_frames [] space = []
remember_frames (scan ∷ frames) space =
    (if counts_in scan space then remember scan space else scan) ∷ remember_frames frames space

unfoldable pub initial_common : Space → ℕ → ℕ
initial_common space current_size =
    if (space.last_delta_root_call_ordinal == last_call_ordinal_unset)
      || not (space.last_delta_root_call_ordinal == space.root_call_ordinal)
    then 0
    else current_size

-- None, an error, or the delta with the frames and the space as the call leaves them.
pub data Answer : Type 0 where
  py_none : Answer
  no_memory : Answer
  answer : List ℕ → List Frame → Space → Answer

unfoldable pub common_count : Space → List Frame → ℕ
unfolding common_loop initial_common coordinate_count
common_count space frames =
    let current_size = coordinate_count frames space.address in
    common_loop frames space.address current_size (initial_common space current_size)

-- The array of the delta is allocated or not; what it holds before the writes is never read.
unfoldable pub thread_delta : Bool → Option Space → List Frame → Answer
unfolding common_count emit_loop remember_frames
thread_delta allocated none frames = py_none
thread_delta allocated (some space) frames =
    let current_size = coordinate_count frames space.address in
    let common = common_count space frames in
    let blank = replicate (1 + current_size - common) 0 in
    if not space.seen
    then py_none
    else if not allocated
    then no_memory
    else answer (emit_loop frames space.address current_size common (set blank 0 common))
        (remember_frames frames space.address)
        (record space { last_delta_root_call_ordinal = space.root_call_ordinal })
