-- ===== src/Spaces/Growth.antt =====
-- While a thread runs in one of its spaces, its place in the space only moves on.
pub mod Enter
pub mod Leave
pub mod Base
pub mod Alike
pub mod Steps
pub mod Moves
pub mod Left
pub mod Run
pub mod Pair
use retrace_cpython.Base.{
  ℕ, zero, suc, ◌≡◌, arith, ◌+◌, ◌<◌, ◌^◌, Bool, true, false, Option, none, some, List, [], ◌∷◌,
  not,
}
use retrace_cpython.Frames.{
  Frame, FrameState, Space, Counter, in_space, counts_in, frame_coordinate,
}
use retrace_cpython.Coordinates.Fill.{coordinates}
use retrace_cpython.Spaces.{ThreadState, Calloc, space_at, has_id}
use retrace_cpython.Spaces.Activation.{frame_at, activate_frame, deactivate_frame, begin_visible}
use retrace_cpython.Spaces.Writes.{Apart, count_of, IsBase}
use retrace_cpython.Spaces.Linked.{Linked}

-- The place of a thread in the space at `s`: the calls at its base, and the coordinates.
abbrev pub location : Counter → ℕ → ThreadState → List ℕ
location base s t = count_of t (some base) ∷ coordinates t.frames s

-- The thread runs in the space at `s`, where calls from no frame are counted at `base`.
pub record RunsIn (base : Counter) (s : ℕ) (t : ThreadState) : Type 0 where
  pub current : t.current_space ≡ some s
  pub resolved : has_id (space_at t.spaces s) t.inherited_space_id ≡ true
  pub based : IsBase t base
  pub apart : Apart t.frames
  pub linked : Linked base s t.call_ordinal_ptr t.frames

-- The frame executes or jumps to another instruction.
abbrev pub moved : Frame → ℕ → ℕ → Frame
moved frame lasti bias =
    let state : FrameState = record frame.retrace { coordinate_bias = bias } in
    record frame { lasti = lasti; retrace = state }

abbrev pub newest_complete : List Frame → Bool
newest_complete [] = true
newest_complete (frame ∷ frames) = not frame.incomplete

-- What the interpreter does that leaves the place of the thread in the space as it is.
pub data Hidden (s : ℕ) : ThreadState → ThreadState → Type 0 where
  links :
      (t : ThreadState) (frame : Frame)
      → frame_at t.frames frame.address ≡ none
      → newest_complete t.frames ≡ true
      → frame.retrace.space ≡ none
      → Hidden s t (record t { frames = frame ∷ t.frames })
  unlinks :
      (t : ThreadState) {frame : Frame} {frames : List Frame}
      → t.frames ≡ frame ∷ frames
      → frame.retrace.space ≡ none
      → Hidden s t (record t { frames = frames })
  activates_incomplete :
      (t : ThreadState) {frame : Frame} {frames : List Frame} (calloc : Calloc)
      → t.frames ≡ frame ∷ frames
      → frame.retrace.space ≡ none
      → frame.incomplete ≡ true
      → frame.owned_by_cstack ≡ false
      → Hidden s t (activate_frame calloc t frame.address).0
  begins_unseen :
      (t : ThreadState) {frame : Frame} {frames : List Frame} (lasti bias : ℕ)
      → t.frames ≡ frame ∷ frames
      → counts_in frame s ≡ false
      → Hidden s t (record t { frames = begin_visible (moved frame lasti bias) ∷ frames })

-- What the interpreter does that moves the thread on in the space.
pub data Shown (s : ℕ) : ThreadState → ThreadState → Type 0 where
  activates :
      (t : ThreadState) {frame : Frame} {frames : List Frame} (calloc : Calloc)
      → t.frames ≡ frame ∷ frames
      → frame.retrace.space ≡ none
      → frame.incomplete ≡ false
      → frame.owned_by_cstack ≡ false
      → Shown s t (activate_frame calloc t frame.address).0
  completes :
      (t : ThreadState) {frame : Frame} {frames : List Frame}
      → t.frames ≡ frame ∷ frames
      → in_space frame.retrace.space s ≡ true
      → frame.incomplete ≡ true
      → frame.owned_by_cstack ≡ false
      → Shown s t (record t { frames = record frame { incomplete = false } ∷ frames })
  begins :
      (t : ThreadState) {frame : Frame} {frames : List Frame} (lasti bias : ℕ)
      → t.frames ≡ frame ∷ frames
      → counts_in frame s ≡ true
      → frame_coordinate frame < frame_coordinate (moved frame lasti bias)
      → Shown s t (record t { frames = begin_visible (moved frame lasti bias) ∷ frames })
  deactivates :
      (t : ThreadState) {frame : Frame} {frames : List Frame}
      → t.frames ≡ frame ∷ frames
      → frame.retrace.space ≡ some s
      → count_of t frame.retrace.previous_call_ordinal_ptr + 1 < 2 ^ 64
      → Shown s t (deactivate_frame t frame.address)

-- A run with a number of steps of the second kind.
pub data Runs (s : ℕ) : ℕ → ThreadState → ThreadState → Type 0 where
  stays : {t : ThreadState} → Runs s zero t t
  hidden : {n : ℕ} {t u v : ThreadState} → Runs s n t u → Hidden s u v → Runs s n t v
  shown : {n : ℕ} {t u v : ThreadState} → Runs s n t u → Shown s u v → Runs s (suc n) t v
