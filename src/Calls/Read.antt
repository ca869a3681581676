-- ===== src/Calls/Read.antt =====
-- `coordinates` and `hash`: retracemodule.c, lines 410 to 533.
pub mod Outcome
use retrace_cpython.Base.{
  ℕ, ◌+◌, ◌-◌, ◌==◌, not, ◌&&◌, ◌||◌, if◌then◌else◌, Bool, true, false, Option, none, some, List,
  [], ◌∷◌, replicate,
}
use retrace_cpython.Frames.{Frame, Space}
use retrace_cpython.Coordinates.{coordinate_count, fill_coordinates}
use retrace_cpython.Coordinates.Fill.{drop}
use retrace_cpython.Coordinates.Hash.{frame_coordinate_hash_in_space}
use retrace_cpython.Spaces.{ThreadState, find_thread_space, thread_state_frame}
use retrace_cpython.Calls.{
  PyError, value_error, lookup_error, runtime_error, memory_error, Result, ok, raise, ◌>>=◌, ◌>>◌,
  guard, Api, Ssize, nonnegative, negative, u64_from_object, space_id_from_object,
  find_thread_state,
}

-- The thread that is asked for: the one with an id, or the current one.
abbrev pub Asked : Type 0
Asked = Option ℕ

unfoldable pub target_thread : List ThreadState → ThreadState → Asked → Option ThreadState
unfolding find_thread_state
target_thread threads current none = some current
target_thread threads current (some thread_id) = find_thread_state threads thread_id

abbrev pub seen_space : Option Space → Option Space
seen_space none = none
seen_space (some space) = if space.seen then some space else none

unfoldable pub place_in : ThreadState → Option Space → Option (Space × List Frame)
unfolding thread_state_frame
place_in tstate none = none
place_in tstate (some space) = some (space, thread_state_frame tstate space)

unfoldable pub place_of : Option ThreadState → ℕ → Result (Option (Space × List Frame))
unfolding place_in find_thread_space
place_of none space_id = raise lookup_error
place_of (some tstate) space_id =
    ok (place_in tstate (seen_space (find_thread_space tstate space_id)))

-- What stands under the lock: the threads of the interpreter, the current one among them.
pub record Locked : Type 0 where
  pub threads : List ThreadState
  pub current : ThreadState

unfoldable pub locate : Locked → Asked → ℕ → Result (Option (Space × List Frame))
unfolding target_thread place_of
locate world asked space_id = place_of (target_thread world.threads world.current asked) space_id

-- The second time that the lock is held. `made` tells whether there is memory for the tuple; what
-- the array holds before it is filled is never read.
unfoldable pub read_again :
    Bool → ℕ → ℕ → ℕ → Option (Space × List Frame) → Result (Option (List ℕ))
unfolding fill_coordinates coordinate_count drop
read_again made count root_ordinal skipped none = ok none
read_again made count root_ordinal skipped (some (space, frames)) = do
  guard (coordinate_count frames space.address == count) runtime_error
  guard (space.root_call_ordinal == root_ordinal) runtime_error
  guard made memory_error
  ok (some (drop skipped (fill_coordinates (replicate count 0) count frames space.address)))

unfoldable pub read_first :
    Bool
    → Bool
    → Result (Option (Space × List Frame))
    → ℕ
    → Option (Space × List Frame)
    → Result (Option (List ℕ))
unfolding read_again
read_first allocated made again skipped none = ok none
read_first allocated made again skipped (some (space, frames)) = do
  let count = coordinate_count frames space.address
  guard ((count == 0) || allocated) memory_error
  place ← again
  read_again made count space.root_call_ordinal skipped place

-- The coordinates that are read at `first` and, after the lock was let go, at `second`.
unfoldable pub coordinates_locked :
    Bool → Bool → Locked → Locked → Asked → ℕ → ℕ → Result (Option (List ℕ))
unfolding read_first locate
coordinates_locked allocated made first second asked space_id skipped =
    locate first asked space_id >>= read_first allocated made (locate second asked space_id) skipped

unfoldable pub hash_at : ThreadState → Option (Space × List Frame) → Option ℕ
unfolding frame_coordinate_hash_in_space
hash_at tstate none = none
hash_at tstate (some (space, frames)) =
    some (frame_coordinate_hash_in_space tstate.identity.retrace_thread_id frames space)

module _ (api : Api) where
  open api use {Object, is_none}

  unfoldable pub asked_thread : Object → Result Asked
  unfolding u64_from_object
  asked_thread thread_id =
      if is_none thread_id then ok none else (u64_from_object api thread_id >>= λ id. ok (some id))

  -- `coordinates(thread_id=None, drop=0, space_id=None)`
  unfoldable pub py_coordinates :
      Bool → Bool → Locked → Locked → Object → Ssize → Object → Result (Option (List ℕ))
  unfolding asked_thread space_id_from_object coordinates_locked
  py_coordinates allocated made first second thread_id (negative n) space_id = raise value_error
  py_coordinates allocated made first second thread_id (nonnegative n) space_id = do
    asked ← asked_thread thread_id
    id ← space_id_from_object api space_id
    coordinates_locked allocated made first second asked id n

  -- `hash(space_id=None)`
  unfoldable pub py_hash : ThreadState → Object → Result (Option ℕ)
  unfolding space_id_from_object hash_at place_in find_thread_space
  py_hash tstate space_id = space_id_from_object api space_id >>= λ id.
      ok (hash_at tstate (place_in tstate (seen_space (find_thread_space tstate id))))
