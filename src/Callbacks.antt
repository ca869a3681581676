-- ===== src/Callbacks.antt =====
-- The callbacks of an interpreter: cpython-overlay/Modules/retracemodule.c, lines 300 to 336, 562 to 657,
-- 680 to 755, 1321 to 1346 and 1846 to 1966, and the state that Include/cpython/retrace_state.h declares for them.
pub mod Entries
pub mod Sound
pub mod Switch
pub mod CallAt
mod Tests
use retrace_cpython.Base.{
  ℕ, zero, suc, ◌==◌, not, ◌&&◌, ◌||◌, if◌then◌else◌, Bool, true, false, Option, none, some, List,
  [], ◌∷◌,
}
use retrace_cpython.Frames.{Frame, Space, space_id_root}
use retrace_cpython.Coordinates.{Comparison, below, equal, above, compare_target_to_frame}

-- The call_at of one space. Callbacks are named by their addresses.
pub record Target : Type 0 where
  pub armed : Bool
  pub thread_id : ℕ
  pub coordinates : Option (List ℕ)
  pub callback : Option ℕ
  pub overshoot_callback : Option ℕ

-- `_PyRetraceSpaceCallbackState`; its `call_at_` members are the record `call_at`.
pub record CallbackState : Type 0 where
  pub space_id : ℕ
  pub last_bytecode_thread : Option ℕ
  pub thread_switch_callback : Option ℕ
  pub call_at : Target

-- The part of `_PyRetraceInterpreterState` for callbacks; the `call_at_` members of the root space are `root`.
pub record Callbacks : Type 0 where
  pub thread_switch_armed : Bool
  pub space_callbacks : List CallbackState
  pub call_at_extra_armed : Bool
  pub root : Target

abbrev pub is_some : Option ℕ → Bool
is_some none = false
is_some (some x) = true

abbrev pub has_coordinates : Option (List ℕ) → Bool
has_coordinates none = false
has_coordinates (some x) = true

-- What `clear` leaves of a target, and what `calloc` makes.
abbrev pub no_target : Target
no_target = record {
  armed = false;
  thread_id = 0;
  coordinates = none;
  callback = none;
  overshoot_callback = none;
}

unfoldable pub find_space_callback_state : List CallbackState → ℕ → Option CallbackState
find_space_callback_state [] space_id = none
find_space_callback_state (entry ∷ entries) space_id =
    let rest = find_space_callback_state entries space_id in
    if entry.space_id == space_id then some entry else rest

abbrev pub new_callback_state : ℕ → CallbackState
new_callback_state space_id = record {
  space_id = space_id;
  last_bytecode_thread = none;
  thread_switch_callback = none;
  call_at = no_target;
}

unfoldable pub ensure_missing :
    Bool → List CallbackState → ℕ → Option CallbackState → Option (List CallbackState)
ensure_missing made entries space_id (some entry) = some entries
ensure_missing made entries space_id none =
    if made then some (new_callback_state space_id ∷ entries) else none

-- `none` is the failure of the allocation.
unfoldable pub ensure_space_callback_state :
    Bool → List CallbackState → ℕ → Option (List CallbackState)
unfolding ensure_missing
ensure_space_callback_state made entries space_id =
    ensure_missing made entries space_id (find_space_callback_state entries space_id)

-- A write to the entry of the space.
unfoldable pub write_entry :
    List CallbackState → ℕ → (CallbackState → CallbackState) → List CallbackState
write_entry [] space_id write = []
write_entry (entry ∷ entries) space_id write =
    let rest = write_entry entries space_id write in
    if entry.space_id == space_id then write entry ∷ entries else entry ∷ rest

unfoldable pub callback_state_empty : CallbackState → Bool
callback_state_empty entry =
    not (is_some entry.thread_switch_callback)
    && (not entry.call_at.armed
        && (not (has_coordinates entry.call_at.coordinates)
            && (not (is_some entry.call_at.callback)
                && not (is_some entry.call_at.overshoot_callback))))

-- The entry of the space is taken out if it is empty.
unfoldable pub prune_callback_state : List CallbackState → ℕ → List CallbackState
unfolding callback_state_empty
prune_callback_state [] space_id = []
prune_callback_state (entry ∷ entries) space_id =
    let rest = prune_callback_state entries space_id in
    if entry.space_id == space_id
    then (if callback_state_empty entry then entries else entry ∷ entries)
    else entry ∷ rest

unfoldable pub some_switch : List CallbackState → Bool
some_switch [] = false
some_switch (entry ∷ entries) =
    let rest = some_switch entries in if is_some entry.thread_switch_callback then true else rest

unfoldable pub some_armed : List CallbackState → Bool
some_armed [] = false
some_armed (entry ∷ entries) =
    let rest = some_armed entries in if entry.call_at.armed then true else rest

unfoldable pub update_thread_switch_armed : Callbacks → Callbacks
unfolding some_switch
update_thread_switch_armed interp = record interp {
  thread_switch_armed = some_switch interp.space_callbacks;
}

unfoldable pub update_call_at_extra_armed : Callbacks → Callbacks
unfolding some_armed
update_call_at_extra_armed interp = record interp {
  call_at_extra_armed = some_armed interp.space_callbacks;
}

abbrev pub set_switch : Option ℕ → Option ℕ → CallbackState → CallbackState
set_switch callback visible_thread entry = record entry {
  thread_switch_callback = callback;
  last_bytecode_thread = if is_some callback then visible_thread else none;
}

-- The writes of `set_thread_switch_callback` once there is an entry.
unfoldable pub install_switch : Callbacks → List CallbackState → ℕ → Option ℕ → Option ℕ → Callbacks
unfolding write_entry prune_callback_state update_thread_switch_armed
install_switch interp entries space_id callback visible_thread =
    update_thread_switch_armed (record interp {
      space_callbacks =
          prune_callback_state (write_entry entries space_id (set_switch callback visible_thread))
            space_id;
    })

unfoldable pub switch_of : Option CallbackState → Option ℕ
switch_of none = none
switch_of (some entry) = entry.thread_switch_callback

unfoldable pub get_thread_switch_callback : Callbacks → ℕ → Option ℕ
unfolding find_space_callback_state switch_of
get_thread_switch_callback interp space_id =
    switch_of (find_space_callback_state interp.space_callbacks space_id)

unfoldable pub install_or_fail :
    Callbacks → ℕ → Option ℕ → Option ℕ → Option (List CallbackState) → Callbacks × Bool
unfolding install_switch
install_or_fail interp space_id callback visible_thread none = (interp, false)
install_or_fail interp space_id callback visible_thread (some entries) =
    (install_switch interp entries space_id callback visible_thread, true)

unfoldable pub entries_if_found :
    List CallbackState → Option CallbackState → Option (List CallbackState)
entries_if_found entries none = none
entries_if_found entries (some entry) = some entries

-- `visible_thread` is the current thread if a frame of it is visible in the space. The result tells
-- whether the call raised no error.
unfoldable pub set_thread_switch_callback :
    Bool → Callbacks → ℕ → Option ℕ → Option ℕ → Callbacks × Bool
unfolding install_or_fail ensure_space_callback_state find_space_callback_state entries_if_found
set_thread_switch_callback made interp space_id (some callback) visible_thread =
    install_or_fail interp space_id (some callback) visible_thread
      (ensure_space_callback_state made interp.space_callbacks space_id)
set_thread_switch_callback made interp space_id none visible_thread = (
  (install_or_fail interp space_id none visible_thread (
      entries_if_found interp.space_callbacks
        (find_space_callback_state interp.space_callbacks space_id))).0,
  true,
)
