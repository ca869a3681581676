-- ===== src/Spaces/Growth/Leave.antt =====
-- The deactivation of the newest frame.
use retrace_cpython.Base.{
  ℕ, ◌≡◌, refl, ◌∙◌, ap, arith, ◌==◌, true, false, Option, none, some, List, ◌∷◌,
}
use retrace_cpython.Frames.{Frame, Counter, root_counter, frame_counter, scope_counter}
use retrace_cpython.Spaces.{ThreadState, owns, write_space}
use retrace_cpython.Spaces.Activation.{
  with_state, write_frame, frame_at, count_call, deactivated, leave_depth, is_frame_counter,
  or_root_counter, deactivate_in, deactivate_with, deactivate_found, deactivate_frame,
}
use retrace_cpython.Spaces.Writes.{frame_at-head, write_frame-head}
use retrace_cpython.Spaces.Linked.{counted_frames}

pub count_call-frames :
    (t : ThreadState) (ptr : Option Counter)
    → (count_call t ptr).frames ≡ counted_frames ptr t.frames
unfolding count_call
count_call-frames t none = refl
count_call-frames t (some (root_counter a)) = refl
count_call-frames t (some (frame_counter a)) = refl
count_call-frames t (some (scope_counter a)) = refl

pub counted_frames-older :
    (ptr : Option Counter) (frame : Frame) (frames : List Frame)
    → is_frame_counter ptr frame.address ≡ false
    → counted_frames ptr (frame ∷ frames) ≡ frame ∷ counted_frames ptr frames
unfolding write_frame
counted_frames-older none frame frames h = refl
counted_frames-older (some (root_counter a)) frame frames h = refl
counted_frames-older (some (frame_counter a)) frame frames h =
    let other : (frame.address == a) ≡ false = ground arith in rw other refl
counted_frames-older (some (scope_counter a)) frame frames h = refl

-- The thread afterwards.
abbrev pub left : ℕ → ThreadState → Frame → List Frame → Option Counter → ThreadState
left s t frame frames ptr =
    let counted = count_call t frame.retrace.previous_call_ordinal_ptr in
    record counted {
      spaces = write_space counted.spaces s leave_depth;
      frames =
          with_state deactivated frame
          ∷ counted_frames frame.retrace.previous_call_ordinal_ptr frames;
      call_ordinal_ptr = ptr;
    }

module _ (t : ThreadState) {s : ℕ} {frame : Frame} {frames : List Frame}
    (top : t.frames ≡ frame ∷ frames) (active : frame.retrace.space ≡ some s)
    (own : owns t.spaces s ≡ true) where
  deactivates_in : deactivate_frame t frame.address ≡ deactivate_in t frame s
  unfolding deactivate_frame
  deactivates_in =
      ap (λ (o : Option Frame). deactivate_found t o)
        (ap (λ (fs : List Frame). frame_at fs frame.address) top ∙ frame_at-head frame frames)
      ∙ ap (λ (o : Option ℕ). deactivate_with t frame o) active
      ∙ rw own refl

  pub deactivate_frame-eq :
      (counter : Counter)
      → t.call_ordinal_ptr ≡ some (frame_counter frame.address)
      → frame.retrace.previous_call_ordinal_ptr ≡ some counter
      → is_frame_counter frame.retrace.previous_call_ordinal_ptr frame.address ≡ false
      → deactivate_frame t frame.address ≡ left s t frame frames (some counter)
  unfolding deactivate_in
  deactivate_frame-eq counter here previous older =
      let same : is_frame_counter t.call_ordinal_ptr frame.address ≡ true =
        ap (λ (o : Option Counter). is_frame_counter o frame.address) here ∙ ground arith in
      let previous_ptr = frame.retrace.previous_call_ordinal_ptr in
      let counted = count_call t previous_ptr in
      let rebuilt : List Frame → Option Counter → ThreadState = λ fs ptr. record counted {
        spaces = write_space counted.spaces s leave_depth;
        frames = fs;
        call_ordinal_ptr = ptr;
      } in
      let wrote =
        ap (λ (fs : List Frame). write_frame fs frame.address deactivated)
          (count_call-frames t previous_ptr
            ∙ ap (counted_frames previous_ptr) top
            ∙ counted_frames-older previous_ptr frame frames older)
        ∙ write_frame-head frame (counted_frames previous_ptr frames) deactivated in
      deactivates_in
      ∙ rw same (
          ap (λ (fs : List Frame). rebuilt fs (or_root_counter previous_ptr t.current_space)) wrote
          ∙ ap
              (λ (o : Option Counter).
                rebuilt (with_state deactivated frame ∷ counted_frames previous_ptr frames)
                  (or_root_counter o t.current_space))
              previous)
