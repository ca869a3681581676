-- ===== src/Coordinates.antt =====
-- Reading the coordinates of a thread: cpython-overlay/Modules/retracemodule.c, lines 171 to 272 and 338 to 385.
pub mod Fill
pub mod Memory
pub mod Order
pub mod Cache
pub mod Hash
mod Tests
use retrace_cpython.Base.{
  ℕ, zero, suc, ◌+◌, ◌-◌, ◌==◌, ltb, leb, not, ◌&&◌, ◌||◌, if◌then◌else◌, Bool, true, false, Option,
  none, some, List, [], ◌∷◌, ◌++◌, length, get_or, set, replicate, min,
}
use retrace_cpython.Frames.{
  Frame, Space, FrameState, Delta as DeltaState, frame_coordinate, frame_call_ordinal, counts_in,
  in_space, last_call_ordinal_unset,
}

unfoldable pub coordinate_count : List Frame → ℕ → ℕ
unfolding counts_in
coordinate_count [] space = 0
coordinate_count (scan ∷ frames) space =
    let rest = coordinate_count frames space in if counts_in scan space then rest + 2 else rest

-- The coordinates of the frames are written from the end of the array to its front.
unfoldable pub fill_loop : List Frame → ℕ → ℕ → List ℕ → List ℕ
unfolding counts_in frame_coordinate frame_call_ordinal
fill_loop [] space position coordinates = coordinates
fill_loop (scan ∷ frames) space position coordinates =
    let at = position - 2 in
    let written =
      set (set coordinates at (frame_coordinate scan)) (at + 1) (frame_call_ordinal scan) in
    fill_loop frames space (if counts_in scan space then at else position)
      (if counts_in scan space then written else coordinates)

unfoldable pub fill_coordinates : List ℕ → ℕ → List Frame → ℕ → List ℕ
unfolding fill_loop
fill_coordinates coordinates coordinate_count frames space =
    fill_loop frames space coordinate_count coordinates

-- What two unsigned numbers, or two sequences, compare to: -1, 0 and 1.
pub data Comparison : Type 0 where
  below equal above : Comparison

-- The loop over the common positions. The target's items are `uint64_t`, as its conversion left them.
unfoldable pub compare_common : ℕ → List ℕ → List ℕ → ℕ → Comparison
compare_common zero target current position = equal
compare_common (suc common) target current position =
    let rest = compare_common common target current (position + 1) in
    if ltb (get_or target position 0) (get_or current position 0)
    then below
    else if ltb (get_or current position 0) (get_or target position 0)
    then above
    else rest

unfoldable pub compare_sizes : ℕ → ℕ → Comparison
compare_sizes target_size current_size =
    if ltb target_size current_size
    then below
    else if ltb current_size target_size
    then above
    else equal

-- The sizes decide if the common positions are equal.
unfoldable pub or_sizes : Comparison → Comparison → Comparison
or_sizes below sizes = below
or_sizes above sizes = above
or_sizes equal sizes = sizes

-- The comparison allocates an array for the coordinates, if there are any.
unfoldable pub has_array : Bool → List Frame → ℕ → Bool
unfolding coordinate_count
has_array given frames space = (coordinate_count frames space == 0) || given

-- `compare_target_to_frame`, once the array is allocated.
unfoldable pub compare_target_to_frame : List ℕ → List Frame → ℕ → Comparison
unfolding coordinate_count fill_coordinates compare_common compare_sizes or_sizes
compare_target_to_frame target frames space =
    let current_size = coordinate_count frames space in
    let current = fill_coordinates (replicate current_size 0) current_size frames space in
    or_sizes (compare_common (min (length target) current_size) target current 0)
      (compare_sizes (length target) current_size)
