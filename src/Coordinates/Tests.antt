-- ===== src/Coordinates/Tests.antt =====
-- The coordinates of two frames, their comparison with a target, and a delta.
use retrace_cpython.Base.{ℕ, ◌≡◌, refl, arith, some, true, false, List, [], ◌∷◌, length, replicate}
use retrace_cpython.Frames.{
  Frame, Space, FrameState, initial_frame_state, frame_coordinate, frame_call_ordinal, counts_in,
}
use retrace_cpython.Coordinates.{coordinate_count, fill_coordinates, compare_target_to_frame}
use retrace_cpython.Coordinates.Fill.{coordinates, fill_coordinates-eq}
use retrace_cpython.Coordinates.Order.{Orders, compare_target_to_frame-Orders}
use retrace_cpython.Coordinates.Hash.{
  root_coordinate_hash, frame_coordinate_hash_in_space, mix_visible_frame_coordinates,
}
use retrace_cpython.Coordinates.Hash.Pairs.{
  hash_pairs, frame_coordinate_hash_in_space-eq, mix_visible_frame_coordinates-eq,
}
use retrace_cpython.Coordinates.Cache.Common.{Remembers}
use retrace_cpython.Coordinates.Cache.Rebuild.{Rebuilt, thread_delta-Rebuilt}

-- A frame of the space at address 100.
abbrev active : ℕ → ℕ → ℕ → Frame
active address lasti ordinal =
    let state : FrameState = record initial_frame_state {
      space = some 100;
      current_call_ordinal = ordinal;
    } in
    record {
      address = address;
      lasti = lasti;
      owned_by_cstack = false;
      incomplete = false;
      retrace = state;
    }

abbrev stack : List Frame
stack = active 2 7 0 ∷ active 1 40 3 ∷ []

abbrev root_space : Space
root_space = record {
  address = 100;
  space_id = 0;
  seen = true;
  depth = 2;
  root_call_ordinal = 0;
  last_delta_root_call_ordinal = 0;
  root_coordinate_hash = 5;
}

two_pairs : coordinates stack 100 ≡ 40 ∷ 3 ∷ 7 ∷ 0 ∷ []
unfolding coordinates initial_frame_state frame_coordinate frame_call_ordinal counts_in
two_pairs = refl

abbrev array : List ℕ
array = replicate 4 9

two_counted : length (array) ≡ coordinate_count stack 100
unfolding coordinate_count initial_frame_state counts_in
two_counted = refl

fill_coordinates-eq_example :
    fill_coordinates (array) (coordinate_count stack 100) stack 100 ≡ coordinates stack 100
fill_coordinates-eq_example = fill_coordinates-eq (array) stack 100 two_counted

compare_target_to_frame-Orders_example :
    Orders (40 ∷ 4 ∷ []) (coordinates stack 100) (compare_target_to_frame (40 ∷ 4 ∷ []) stack 100)
compare_target_to_frame-Orders_example = compare_target_to_frame-Orders (40 ∷ 4 ∷ []) stack 100

never_emitted : Remembers 100 [] stack
unfolding initial_frame_state
never_emitted = ((λ _ c. ground (arith, c)), ((λ _ c. ground (arith, c)), tt))

thread_delta-Rebuilt_example : Rebuilt root_space [] stack
thread_delta-Rebuilt_example = thread_delta-Rebuilt root_space [] stack never_emitted refl

frame_coordinate_hash_in_space-eq_example :
    frame_coordinate_hash_in_space 7 stack root_space
    ≡ hash_pairs (root_coordinate_hash 7 (some root_space)) (coordinates stack 100)
frame_coordinate_hash_in_space-eq_example = frame_coordinate_hash_in_space-eq 7 stack root_space

mix_visible_frame_coordinates-eq_example :
    mix_visible_frame_coordinates 1 stack 100 ≡ hash_pairs 1 (coordinates stack 100)
mix_visible_frame_coordinates-eq_example = mix_visible_frame_coordinates-eq 1 stack 100
