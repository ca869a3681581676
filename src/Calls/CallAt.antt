-- ===== src/Calls/CallAt.antt =====
-- `call_at` with its arguments: retracemodule.c, lines 541 to 559 and 1221 to 1349.
pub mod Parsed
pub mod Judged
pub mod Refused
use retrace_cpython.Base.{
  ℕ, zero, suc, ◌%◌, ◌==◌, not, ◌&&◌, ◌||◌, if◌then◌else◌, Bool, true, false, Option, none, some,
  List, [], ◌∷◌, length,
}
use retrace_cpython.Frames.{Frame, Space, space_id_root}
use retrace_cpython.Coordinates.{
  Comparison, below, equal, above, has_array, compare_target_to_frame,
}
use retrace_cpython.Callbacks.{Target, Callbacks, is_some}
use retrace_cpython.Callbacks.CallAt.{clear_call_at, arm_call_at}
use retrace_cpython.Spaces.{ThreadState, find_thread_space, thread_state_frame}
use retrace_cpython.Calls.{
  PyError, type_error, value_error, lookup_error, memory_error, Result, ok, raise, ◌>>=◌, ◌>>◌,
  guard, Api, u64_from_object, space_id_argument, tuple_from_sequence, callback_ref,
  find_thread_state,
}
use retrace_cpython.Calls.Read.{seen_space}

-- What the arguments ask for.
pub data Request : Type 0 where
  clear : ℕ → Request
  arm : ℕ → Target → Request

abbrev pub is_below : Comparison → Bool
is_below below = true
is_below equal = false
is_below above = false

-- The answers of the allocator: for the tuple, for the array of the comparison and for the entry.
pub record CallAtMemory : Type 0 where
  pub tuple : Bool
  pub array : Bool
  pub entry : Bool

-- The coordinates of the thread must not have passed the target, unless there is an overshoot callback.
unfoldable pub check_place : Bool → Target → List ℕ → Option Space → ThreadState → Result (Unit {0})
unfolding has_array compare_target_to_frame thread_state_frame
check_place array target coordinates none tstate = raise lookup_error
check_place array target coordinates (some space) tstate =
    guard (has_array array (thread_state_frame tstate space) space.address) memory_error
    >> guard
        (not (
            is_below
              (compare_target_to_frame coordinates (thread_state_frame tstate space) space.address))
          || is_some target.overshoot_callback)
        value_error

unfoldable pub check_target : Bool → ℕ → Target → List ℕ → Option ThreadState → Result (Unit {0})
unfolding check_place find_thread_space
check_target array space_id target coordinates none = raise lookup_error
check_target array space_id target coordinates (some tstate) =
    check_place array target coordinates (seen_space (find_thread_space tstate space_id)) tstate

abbrev pub coordinates_of : Option (List ℕ) → List ℕ
coordinates_of none = []
coordinates_of (some coordinates) = coordinates

-- The callbacks afterwards, and what the call returns or raises.
unfoldable pub armed_or_failed : Callbacks × Bool → Callbacks × Result (Unit {0})
armed_or_failed (after, true) = (after, ok tt)
armed_or_failed (after, false) = (after, raise memory_error)

unfoldable pub arm_checked :
    Bool → Callbacks → ℕ → Target → Result (Unit {0}) → Callbacks × Result (Unit {0})
unfolding arm_call_at armed_or_failed
arm_checked entry interp space_id target (raise e) = (interp, raise e)
arm_checked entry interp space_id target (ok _) =
    armed_or_failed (arm_call_at entry interp space_id target)

unfoldable pub perform :
    CallAtMemory → List ThreadState → Callbacks → Result Request → Callbacks × Result (Unit {0})
unfolding clear_call_at arm_checked check_target find_thread_state
perform memory threads interp (raise e) = (interp, raise e)
perform memory threads interp (ok (clear space_id)) = (clear_call_at interp space_id, ok tt)
perform memory threads interp (ok (arm space_id target)) =
    arm_checked memory.entry interp space_id target (
      check_target memory.array space_id target (coordinates_of target.coordinates)
        (find_thread_state threads target.thread_id))

module _ (api : Api) where
  open api use {Object, is_none}

  unfoldable pub overshoot_argument : Option Object → Result (Option ℕ)
  unfolding callback_ref
  overshoot_argument none = ok none
  overshoot_argument (some callback) = callback_ref api callback true

  unfoldable pub arm_request :
      Bool → Object → Object → Object → Option Object → Option Object → Result Request
  unfolding u64_from_object callback_ref tuple_from_sequence overshoot_argument space_id_argument
  arm_request made thread sequence callback overshoot space = do
    thread_id ← u64_from_object api thread
    guard (not (thread_id == 0)) value_error
    callback_object ← callback_ref api callback false
    overshoot_object ← overshoot_argument overshoot
    space_id ← space_id_argument api space
    coordinates ← tuple_from_sequence api made sequence
    guard (not (length coordinates == 0) && (length coordinates % 2 == 0)) value_error
    ok (
        arm space_id (record {
          armed = true;
          thread_id = thread_id;
          coordinates = some coordinates;
          callback = callback_object;
          overshoot_callback = overshoot_object;
        }))

  unfoldable pub clear_request : Option Object → Result Request
  clear_request space = space_id_argument api space >>= λ space_id. ok (clear space_id)

  -- By the number of arguments.
  unfoldable pub parse_call_at : Bool → List Object → Result Request
  unfolding arm_request clear_request
  parse_call_at made [] = raise type_error
  parse_call_at made (a ∷ []) = if is_none a then clear_request none else raise type_error
  parse_call_at made (a ∷ b ∷ []) = if is_none a then clear_request (some b) else raise type_error
  parse_call_at made (a ∷ b ∷ c ∷ []) = arm_request made a b c none none
  parse_call_at made (a ∷ b ∷ c ∷ d ∷ []) = arm_request made a b c (some d) none
  parse_call_at made (a ∷ b ∷ c ∷ d ∷ e ∷ []) = arm_request made a b c (some d) (some e)
  parse_call_at made (a ∷ b ∷ c ∷ d ∷ e ∷ f ∷ rest) = raise type_error

  unfoldable pub py_call_at :
      CallAtMemory → List ThreadState → Callbacks → List Object → Callbacks × Result (Unit {0})
  unfolding parse_call_at perform
  py_call_at memory threads interp args =
      perform memory threads interp (parse_call_at memory.tuple args)
