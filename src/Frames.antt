-- ===== src/Frames.antt =====
-- The state that a frame, a coordinate space and a thread carry, and what a frame contributes:
-- cpython-overlay/Include/cpython/retrace_state.h and Include/internal/pycore_retrace.h, lines 107 to 202.
pub mod Jump
mod Tests
use retrace_cpython.Base.{
  ℕ, zero, suc, ◌+◌, ◌-◌, ◌*◌, ◌%◌, ◌^◌, ◌==◌, leb, not, ◌&&◌, ◌||◌, if◌then◌else◌, Bool, true,
  false, Option, none, some, List, [], ◌∷◌,
}
use retrace_cpython.Words.Arith.{word_max, add64, sub64}
use retrace_cpython.Threads.Ids.{coordinate_hash_unset}

abbrev pub last_instruction_counter_unset : ℕ
last_instruction_counter_unset = word_max

abbrev pub last_call_ordinal_unset : ℕ
last_call_ordinal_unset = word_max - 1

abbrev pub space_id_root : ℕ
space_id_root = 0

abbrev pub space_id_disabled : ℕ
space_id_disabled = 1

-- A `uint64_t *` that counts calls: the root counter of a space, the counter of a frame, or the
-- one of the scope of a call. Frames, spaces and scopes are named by their addresses.
pub data Counter : Type 0 where
  root_counter : ℕ → Counter
  frame_counter : ℕ → Counter
  scope_counter : ℕ → Counter

-- `_PyRetraceThreadSpaceState`; the links of the circle are the order of a list.
pub record Space : Type 0 where
  pub address : ℕ
  pub space_id : ℕ
  pub seen : Bool
  pub depth : ℕ
  pub root_call_ordinal : ℕ
  pub last_delta_root_call_ordinal : ℕ
  pub root_coordinate_hash : ℕ

pub record Delta : Type 0 where
  pub last_call_ordinal : ℕ
  pub last_instruction_counter : ℕ
  pub last_delta_space : Option ℕ

-- `_PyRetraceFrameState`. The bias is an `int64_t`, in two's complement.
pub record FrameState : Type 0 where
  pub coordinate_bias : ℕ
  pub current_call_ordinal : ℕ
  pub previous_call_ordinal_ptr : Option Counter
  pub space : Option ℕ
  pub delta : Delta
  pub coordinate_hash : ℕ

-- An `_PyInterpreterFrame`: its address, `_PyInterpreterFrame_LASTI`, whether a C stack owns it,
-- whether it is incomplete, and its `retrace` member. A chain of frames by `previous` is a list.
pub record Frame : Type 0 where
  pub address : ℕ
  pub lasti : ℕ
  pub owned_by_cstack : Bool
  pub incomplete : Bool
  pub retrace : FrameState

unfoldable pub initial_delta : Delta
initial_delta = record {
  last_call_ordinal = last_call_ordinal_unset;
  last_instruction_counter = last_instruction_counter_unset;
  last_delta_space = none;
}

-- `_PyRetraceFrameState_Init`
unfoldable pub initial_frame_state : FrameState
unfolding initial_delta
initial_frame_state = record {
  coordinate_bias = 0;
  current_call_ordinal = 0;
  previous_call_ordinal_ptr = none;
  space = none;
  delta = initial_delta;
  coordinate_hash = coordinate_hash_unset;
}

-- `coordinate <= 0 ? 0 : (uint64_t)coordinate` on the bits of an `int64_t`.
unfoldable pub positive_part : ℕ → ℕ
positive_part coordinate = if leb (2 ^ 63) coordinate then 0 else coordinate

unfoldable pub frame_coordinate : Frame → ℕ
unfolding positive_part
frame_coordinate frame = positive_part (add64 frame.retrace.coordinate_bias frame.lasti)

-- Jumps are given by the offsets of the two instructions.
unfoldable pub coordinate_jump : Frame → ℕ → ℕ → Frame
coordinate_jump frame from to =
    let from_coordinate : ℕ = add64 frame.retrace.coordinate_bias from in
    let moved : FrameState = record frame.retrace {
      coordinate_bias = sub64 (add64 from_coordinate 1) to;
      coordinate_hash = coordinate_hash_unset;
    } in
    record frame { retrace = moved }

unfoldable pub frame_call_ordinal : Frame → ℕ
frame_call_ordinal frame = frame.retrace.current_call_ordinal

abbrev pub has_space : Option ℕ → Bool
has_space none = false
has_space (some space) = true

unfoldable pub frame_is_visible : Frame → Bool
frame_is_visible frame =
    not frame.owned_by_cstack && (has_space frame.retrace.space && not frame.incomplete)

-- `frame->retrace.space == space`
abbrev pub in_space : Option ℕ → ℕ → Bool
in_space none space = false
in_space (some s) space = s == space

-- The test under which the walks over the frames of a space stop at a frame.
unfoldable pub counts_in : Frame → ℕ → Bool
unfolding frame_is_visible
counts_in frame space = frame_is_visible frame && in_space frame.retrace.space space
