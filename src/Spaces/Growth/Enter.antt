-- ===== src/Spaces/Growth/Enter.antt =====
-- The activation of the newest frame.
use retrace_cpython.Base.{ℕ, ◌≡◌, ◌∙◌, ap, true, none, some, Option, List, ◌∷◌}
use retrace_cpython.Frames.{Frame, FrameState, frame_counter}
use retrace_cpython.Spaces.{
  ThreadState, Calloc, space_at, has_id, write_space, resolve_current_space, current_space_state,
}
use retrace_cpython.Spaces.Activation.{
  with_state, write_frame, frame_at, activated, enter_depth, activate_frame, activate_found,
  activate_with, activate_in,
}
use retrace_cpython.Spaces.Writes.{frame_at-head, write_frame-head}

-- The thread afterwards.
abbrev pub entered : ℕ → ThreadState → Frame → List Frame → ThreadState
entered s t frame frames = record t {
  spaces = write_space t.spaces s enter_depth;
  call_ordinal_ptr = some (frame_counter frame.address);
  frames = with_state (activated s t.call_ordinal_ptr) frame ∷ frames;
}

module _ (calloc : Calloc) (t : ThreadState) {s : ℕ} (current : t.current_space ≡ some s)
    (resolved : has_id (space_at t.spaces s) t.inherited_space_id ≡ true) where
  pub resolve_current_space-eq : resolve_current_space calloc t ≡ (t, some s)
  unfolding resolve_current_space
  resolve_current_space-eq =
      let found =
        ap (λ (o : Option ℕ). has_id (current_space_state t o) t.inherited_space_id) current
        ∙ resolved in
      rw found (ap (λ (o : Option ℕ). (t, o)) current)

  pub activate_frame-eq :
      {frame : Frame} {frames : List Frame}
      → t.frames ≡ frame ∷ frames
      → frame.retrace.space ≡ none
      → activate_frame calloc t frame.address ≡ (entered s t frame frames, true)
  unfolding activate_frame
  activate_frame-eq {frame} {frames} top inactive =
      let write : FrameState → FrameState = activated s t.call_ordinal_ptr in
      ap (λ (o : Option Frame). activate_found calloc t o)
        (ap (λ (fs : List Frame). frame_at fs frame.address) top ∙ frame_at-head frame frames)
      ∙ ap (λ (o : Option ℕ). activate_with calloc t frame.address o) inactive
      ∙ ap (λ (p : ThreadState × Option ℕ). activate_in p.0 frame.address p.1)
          resolve_current_space-eq
      ∙ ap
          (λ (fs : List Frame).
            let next : ThreadState = record (entered s t frame frames) { frames = fs } in
            (next, true))
          (ap (λ (fs : List Frame). write_frame fs frame.address write) top
            ∙ write_frame-head frame frames write)
