-- ===== src/Callbacks/CallAt.antt =====
-- The call_at of a space: retracemodule.c, lines 300 to 336, 1321 to 1346 and 1846 to 1905.
pub mod Clear
pub mod Arm
pub mod Check
use retrace_cpython.Base.{
  ℕ, ◌==◌, not, ◌&&◌, ◌||◌, if◌then◌else◌, Bool, true, false, Option, none, some, List, [], ◌∷◌,
}
use retrace_cpython.Frames.{Frame, Space, space_id_root}
use retrace_cpython.Coordinates.{
  Comparison, below, equal, above, has_array, compare_target_to_frame,
}
use retrace_cpython.Callbacks.{
  Target, CallbackState, Callbacks, no_target, find_space_callback_state,
  ensure_space_callback_state, write_entry, prune_callback_state, update_call_at_extra_armed,
}

unfoldable pub clear_root_call_at : Callbacks → Callbacks
clear_root_call_at interp = record interp { root = no_target }

abbrev pub put_target : Target → CallbackState → CallbackState
put_target target entry = record entry { call_at = target }

-- The flag is computed before the entry is pruned.
unfoldable pub clear_space_call_at : Callbacks → ℕ → Option CallbackState → Callbacks
unfolding write_entry prune_callback_state update_call_at_extra_armed
clear_space_call_at interp space_id none = interp
clear_space_call_at interp space_id (some entry) =
    let cleared : Callbacks = update_call_at_extra_armed (record interp {
      space_callbacks = write_entry interp.space_callbacks space_id (put_target no_target);
    }) in
    record cleared { space_callbacks = prune_callback_state cleared.space_callbacks space_id }

unfoldable pub clear_call_at : Callbacks → ℕ → Callbacks
unfolding clear_root_call_at clear_space_call_at find_space_callback_state
clear_call_at interp space_id =
    if space_id == space_id_root
    then clear_root_call_at interp
    else clear_space_call_at interp space_id
        (find_space_callback_state interp.space_callbacks space_id)

-- The writes of `call_at` to the entry of a space other than the root.
unfoldable pub arm_space : Callbacks → ℕ → Target → Option (List CallbackState) → Callbacks × Bool
unfolding write_entry
arm_space cleared space_id target none = (cleared, false)
arm_space cleared space_id target (some entries) = (
  record cleared {
    space_callbacks = write_entry entries space_id (put_target target);
    call_at_extra_armed = true;
  },
  true,
)

-- `call_at` once its arguments are checked; the result tells whether it raised no error.
unfoldable pub arm_call_at : Bool → Callbacks → ℕ → Target → Callbacks × Bool
unfolding arm_space
arm_call_at made interp space_id target =
    let cleared = clear_call_at interp space_id in
    if space_id == space_id_root
    then (record cleared { root = target }, true)
    else arm_space cleared space_id target
        (ensure_space_callback_state made cleared.space_callbacks space_id)

-- Which callback a comparison calls for; `none` inside is a callback that is NULL.
unfoldable pub callback_for : Target → Comparison → Option (Option ℕ)
callback_for target above = none
callback_for target equal = some target.callback
callback_for target below = some target.overshoot_callback

-- The clearing before a delivery; the root slot has no entry.
unfoldable pub clear_slot : Bool → Callbacks → ℕ → Callbacks
unfolding clear_root_call_at clear_space_call_at find_space_callback_state
clear_slot is_root interp space_id =
    if is_root
    then clear_root_call_at interp
    else clear_space_call_at interp space_id
        (find_space_callback_state interp.space_callbacks space_id)

unfoldable pub deliver : Bool → Callbacks → ℕ → Option (Option ℕ) → Callbacks × Option ℕ
unfolding clear_slot clear_call_at
deliver is_root interp space_id none = (interp, none)
deliver is_root interp space_id (some none) = (clear_call_at interp space_id, none)
deliver is_root interp space_id (some (some callback)) =
    (clear_slot is_root interp space_id, some callback)

-- `array` tells whether the comparison gets its memory; without it, the slot is kept.
unfoldable pub check_compared :
    Bool → Bool → Callbacks → List Frame → ℕ → Target → List ℕ → ℕ → Callbacks × Option ℕ
unfolding deliver callback_for has_array compare_target_to_frame
check_compared is_root array interp frames space_id target coordinates space =
    if has_array array frames space
    then deliver is_root interp space_id
        (callback_for target (compare_target_to_frame coordinates frames space))
    else (interp, none)

unfoldable pub check_space :
    Bool → Bool → Callbacks → List Frame → ℕ → Target → List ℕ → Option Space → Callbacks × Option ℕ
unfolding check_compared clear_call_at
check_space is_root array interp frames space_id target coordinates none =
    (clear_call_at interp space_id, none)
check_space is_root array interp frames space_id target coordinates (some space) =
    if space.seen
    then check_compared is_root array interp frames space_id target coordinates space.address
    else (clear_call_at interp space_id, none)

unfoldable pub check_coordinates :
    Bool
    → Bool
    → Callbacks
    → List Frame
    → ℕ
    → Target
    → Option (List ℕ)
    → Option Space
    → Callbacks × Option ℕ
unfolding check_space clear_call_at
check_coordinates is_root array interp frames space_id target none space =
    (clear_call_at interp space_id, none)
check_coordinates is_root array interp frames space_id target (some coordinates) space =
    check_space is_root array interp frames space_id target coordinates space

-- The callbacks afterwards, and the callback that is delivered. `space` is what the thread has for the space id.
unfoldable pub check_call_at_slot :
    Bool → Bool → Callbacks → ℕ → List Frame → ℕ → Target → Option Space → Callbacks × Option ℕ
unfolding check_coordinates
check_call_at_slot is_root array interp thread_id frames space_id target space =
    if not target.armed || not (target.thread_id == thread_id)
    then (interp, none)
    else check_coordinates is_root array interp frames space_id target target.coordinates space
