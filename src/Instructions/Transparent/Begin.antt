-- ===== src/Instructions/Transparent/Begin.antt =====
-- The start of an instruction leaves the thread in its space, whatever is called before it.
use retrace_cpython.Base.{
  ℕ, ◌≡◌, sym, ◌∙◌, ◌==◌, ◌||◌, ◌&&◌, not, Bool, true, false, Option, none, some, List, [], ◌∷◌,
  inl, inr, Bool-cases,
}
use retrace_cpython.Frames.{Frame, frame_is_visible}
use retrace_cpython.Callbacks.{CallbackState}
use retrace_cpython.Spaces.{ThreadState}
use retrace_cpython.Spaces.Activation.{begin_visible}
use retrace_cpython.Instructions.{
  Interp, Arguments, Python, Memory, put_current, deliver_callback, check_call_at,
  call_transparent_callback,
}
use retrace_cpython.Instructions.Begin.{
  DeltaReply, delta_error, delta_none, delta_tuple, note_last, call_switch, switch_with,
  switch_from, switch_last, switch_found, thread_at, has_retrace_id, same_address,
  deliver_thread_switch_callback, switch_if_armed, note_bytecode_thread, begin_checked,
  begin_callbacks, begin_frame, begin_instruction,
}
use retrace_cpython.Instructions.Transparent.{call_transparent_callback-Transparent}
use retrace_cpython.Instructions.Transparent.Unmoved.{
  IsScoped, Unmoved, Unmoved-refl, Unmoved-trans, if_both, ident-Unmoved,
}

module _ (python : Python) (scoped : IsScoped python) (memory : Memory) where
  called-Unmoved :
      (interp : Interp) (frame callback : ℕ) (arguments : Arguments)
      → interp.current.thread_callback_active ≡ false
      → Unmoved interp.current
          (call_transparent_callback python memory interp frame callback arguments).0.current
  called-Unmoved interp frame callback arguments quiet =
      let t =
        call_transparent_callback-Transparent python memory interp frame callback arguments
          (scoped callback arguments _) in
      record {
        active = t.inactive ∙ sym quiet;
        current = t.current;
        inherited = t.inherited;
        pointer = t.pointer;
        scopes = t.scopes;
      }

  delivered-Unmoved :
      (interp : Interp) (frame : ℕ) (callback : Option ℕ)
      → interp.current.thread_callback_active ≡ false
      → Unmoved interp.current (deliver_callback python memory interp frame callback).0.current
  unfolding deliver_callback
  delivered-Unmoved interp frame none quiet = Unmoved-refl interp.current
  delivered-Unmoved interp frame (some callback) quiet =
      called-Unmoved interp frame callback _ quiet

  check_call_at-Unmoved :
      (interp : Interp) (frame : Frame)
      → interp.current.thread_callback_active ≡ false
      → Unmoved interp.current (check_call_at python memory interp frame).0.current
  unfolding check_call_at
  check_call_at-Unmoved interp frame quiet =
      elim (Bool-cases (
        (interp.current.identity.retrace_thread_id == 0)
        || (interp.current.thread_callback_active
            || (not interp.callbacks.root.armed && not interp.callbacks.call_at_extra_armed)))) [
              | inl y ↦ rw y (Unmoved-refl interp.current)
              | inr n ↦ rw n (delivered-Unmoved _ frame.address _ quiet)
            ]

  call_switch-Unmoved :
      (interp : Interp) (frame : Frame) (callback : Option ℕ) (delta : List ℕ) (ident : Option ℕ)
      → interp.current.thread_callback_active ≡ false
      → Unmoved interp.current (call_switch python memory interp frame callback delta ident).current
  unfolding call_switch
  call_switch-Unmoved interp frame none delta ident quiet = Unmoved-refl interp.current
  call_switch-Unmoved interp frame (some callback) delta none quiet = Unmoved-refl interp.current
  call_switch-Unmoved interp frame (some callback) delta (some ident) quiet =
      called-Unmoved interp frame.address callback _ quiet

  switch_with-Unmoved :
      (interp : Interp) (frame : Frame) (entry : CallbackState) (reply : DeltaReply)
      → interp.current.thread_callback_active ≡ false
      → Unmoved interp.current (switch_with python memory interp frame entry reply).current
  unfolding switch_with note_last
  switch_with-Unmoved interp frame entry delta_error quiet = Unmoved-refl interp.current
  switch_with-Unmoved interp frame entry delta_none quiet = Unmoved-refl interp.current
  switch_with-Unmoved interp frame entry (delta_tuple delta) quiet =
      let asked = ident-Unmoved interp.current memory.int in
      Unmoved-trans asked
        (call_switch-Unmoved _ frame entry.thread_switch_callback delta _ (asked.active ∙ quiet))

  switch_from-Unmoved :
      (interp : Interp) (frame : Frame) (entry : CallbackState) (previous : Option ThreadState)
      → interp.current.thread_callback_active ≡ false
      → Unmoved interp.current (switch_from python memory interp frame entry previous).current
  unfolding switch_from note_last
  switch_from-Unmoved interp frame entry none quiet = Unmoved-refl interp.current
  switch_from-Unmoved interp frame entry (some previous) quiet =
      switch_with-Unmoved _ frame entry _ quiet

  switch_last-Unmoved :
      (interp : Interp) (frame : Frame) (entry : CallbackState) (last : Option ℕ)
      → interp.current.thread_callback_active ≡ false
      → Unmoved interp.current (switch_last python memory interp frame entry last).current
  unfolding switch_last
  switch_last-Unmoved interp frame entry none quiet =
      switch_from-Unmoved interp frame entry none quiet
  switch_last-Unmoved interp frame entry (some last) quiet =
      elim (Bool-cases (last == interp.current.identity.address)) [
        | inl y ↦ rw y (Unmoved-refl interp.current)
        | inr n ↦ rw n (switch_from-Unmoved interp frame entry _ quiet)
      ]

  switch_found-Unmoved :
      (interp : Interp) (frame : Frame) (entry : Option CallbackState)
      → interp.current.thread_callback_active ≡ false
      → Unmoved interp.current (switch_found python memory interp frame entry).current
  unfolding switch_found
  switch_found-Unmoved interp frame none quiet = Unmoved-refl interp.current
  switch_found-Unmoved interp frame (some entry) quiet =
      switch_last-Unmoved interp frame entry entry.last_bytecode_thread quiet

  deliver-Unmoved :
      (interp : Interp) (previous : ℕ) (frame : Frame)
      → interp.current.thread_callback_active ≡ false
      → Unmoved interp.current
          (deliver_thread_switch_callback python memory interp previous frame).current
  unfolding deliver_thread_switch_callback
  deliver-Unmoved interp previous frame quiet =
      elim (Bool-cases (
        not (has_retrace_id (thread_at interp.others previous))
        || ((interp.current.identity.retrace_thread_id == 0)
            || interp.current.thread_callback_active))) [
              | inl y ↦ rw y (Unmoved-refl interp.current)
              | inr n ↦ rw n (switch_found-Unmoved interp frame _ quiet)
            ]

  switch_if_armed-Unmoved :
      (interp : Interp) (frame : Frame) (previous : Option ℕ)
      → interp.current.thread_callback_active ≡ false
      → Unmoved interp.current (switch_if_armed python memory interp frame previous).current
  unfolding switch_if_armed
  switch_if_armed-Unmoved interp frame none quiet = Unmoved-refl interp.current
  switch_if_armed-Unmoved interp frame (some previous) quiet =
      if_both (λ (i : Interp). Unmoved interp.current i.current)
        interp.callbacks.thread_switch_armed (λ armed. deliver-Unmoved interp previous frame quiet)
        (λ off. Unmoved-refl interp.current)

  noted-Unmoved :
      (interp : Interp) (frame : Frame)
      → interp.current.thread_callback_active ≡ false
      → Unmoved interp.current (note_bytecode_thread python memory interp frame).current
  unfolding note_bytecode_thread
  noted-Unmoved interp frame quiet =
      elim (Bool-cases (same_address interp.last_bytecode_thread interp.current.identity.address)) [
        | inl y ↦ rw y (Unmoved-refl interp.current)
        | inr n ↦ rw n (switch_if_armed-Unmoved interp frame interp.last_bytecode_thread quiet)
      ]

  checked-Unmoved :
      (interp : Interp) (frame : Frame) (result : Interp × Bool)
      → interp.current.thread_callback_active ≡ false
      → Unmoved interp.current result.0.current
      → Unmoved interp.current (begin_checked python memory result frame).0.current
  unfolding begin_checked
  checked-Unmoved interp frame (after, false) quiet unmoved = unmoved
  checked-Unmoved interp frame (after, true) quiet unmoved =
      Unmoved-trans unmoved (noted-Unmoved after frame (unmoved.active ∙ quiet))

  callbacks-Unmoved :
      (interp : Interp) (frame : Frame)
      → Unmoved interp.current (begin_callbacks python memory interp frame).0.current
  unfolding begin_callbacks
  callbacks-Unmoved interp frame =
      if_both (λ (r : Interp × Bool). Unmoved interp.current r.0.current)
        interp.current.thread_callback_active (λ active. Unmoved-refl interp.current)
        (λ quiet. checked-Unmoved interp frame _ quiet (
          if_both (λ (r : Interp × Bool). Unmoved interp.current r.0.current)
            ((interp.callbacks.root.armed || interp.callbacks.call_at_extra_armed)
              && frame_is_visible frame)
            (λ armed. check_call_at-Unmoved interp frame quiet)
            (λ off. Unmoved-refl interp.current)))

  -- The frames of the thread begin the instruction first.
  begun-Unmoved :
      (interp : Interp) (frames : List Frame)
      → Unmoved interp.current (begin_frame python memory interp frames).0.current
  unfolding begin_frame
  begun-Unmoved interp [] = Unmoved-refl interp.current
  begun-Unmoved interp (frame ∷ frames) =
      let begun = begin_visible frame in
      let current : ThreadState = record interp.current { frames = begun ∷ frames } in
      let unmoved = callbacks-Unmoved (put_current interp current) begun in
      record {
        active = unmoved.active;
        current = unmoved.current;
        inherited = unmoved.inherited;
        pointer = unmoved.pointer;
        scopes = unmoved.scopes;
      }

  -- If every callback keeps the scopes of the calls in progress, the start of an instruction,
  -- with all that is called before it at coordinates and at a thread switch, and whether it
  -- succeeds or raises, leaves the thread's current space, its inherited space id, its call
  -- counter and whether it runs a callback as they were, and its scopes but for the calls that
  -- they counted.
  pub begin_instruction-Unmoved :
      (interp : Interp) → Unmoved interp.current (begin_instruction python memory interp).0.current
  unfolding begin_instruction
  begin_instruction-Unmoved interp = begun-Unmoved interp interp.current.frames
