-- ===== src/Coordinates/Hash.antt =====
-- The hash of a thread's coordinates in a space: pycore_retrace.h, lines 219 to 228, 320 to 336, 422 to
-- 456 and 479 to 494. The search for the nearest visible frame is the step over a frame that does not count.
pub mod Pairs
use retrace_cpython.Base.{
  ℕ, ◌==◌, ◌-◌, ◌^◌, bit_and, bit_or, if◌then◌else◌, Option, none, some, List, [], ◌∷◌,
}
use retrace_cpython.Threads.Ids.{normalize_coordinate_hash, initial_root_coordinate_hash, mix_word}
use retrace_cpython.Frames.{Frame, Space, frame_coordinate, frame_call_ordinal, counts_in}

abbrev pub call_ordinal_hash_tag : ℕ
call_ordinal_hash_tag = 2 ^ 63

abbrev pub coordinate_hash_mask : ℕ
coordinate_hash_mask = 2 ^ 63 - 1

unfoldable pub mix_frame_coordinate_hash : ℕ → ℕ → ℕ → ℕ
unfolding mix_word
mix_frame_coordinate_hash hash instruction_counter call_ordinal =
    let counted = mix_word hash (bit_and instruction_counter coordinate_hash_mask) in
    if call_ordinal == 0
    then counted
    else mix_word counted (bit_or call_ordinal_hash_tag call_ordinal)

-- A thread id of 0 stands for none.
unfoldable pub space_root_coordinate_hash : ℕ → ℕ
unfolding normalize_coordinate_hash initial_root_coordinate_hash
space_root_coordinate_hash thread_id =
    normalize_coordinate_hash (if thread_id == 0 then initial_root_coordinate_hash else thread_id)

unfoldable pub root_coordinate_hash : ℕ → Option Space → ℕ
unfolding space_root_coordinate_hash normalize_coordinate_hash mix_frame_coordinate_hash
root_coordinate_hash thread_id none = space_root_coordinate_hash thread_id
root_coordinate_hash thread_id (some space) =
    let hash = normalize_coordinate_hash space.root_coordinate_hash in
    if space.root_call_ordinal == 0
    then hash
    else mix_frame_coordinate_hash hash 0 space.root_call_ordinal

unfoldable pub frame_coordinate_hash_in_space : ℕ → List Frame → Space → ℕ
unfolding root_coordinate_hash counts_in mix_frame_coordinate_hash
frame_coordinate_hash_in_space thread_id [] space = root_coordinate_hash thread_id (some space)
frame_coordinate_hash_in_space thread_id (frame ∷ frames) space =
    let hash = frame_coordinate_hash_in_space thread_id frames space in
    if counts_in frame space.address
    then mix_frame_coordinate_hash hash (frame_coordinate frame) (frame_call_ordinal frame)
    else hash

unfoldable pub mix_visible_frame_coordinates : ℕ → List Frame → ℕ → ℕ
unfolding counts_in mix_frame_coordinate_hash
mix_visible_frame_coordinates hash [] space = hash
mix_visible_frame_coordinates hash (frame ∷ frames) space =
    let mixed = mix_visible_frame_coordinates hash frames space in
    if counts_in frame space
    then mix_frame_coordinate_hash mixed (frame_coordinate frame) (frame_call_ordinal frame)
    else mixed
