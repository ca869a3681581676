-- ===== src/Instructions/Begin/Quiet.antt =====
-- Instructions before which nothing is called.
use retrace_cpython.Base.{
  ℕ, ◌≡◌, refl, sym, ◌∙◌, ap, subst, arith, ◌==◌, ◌||◌, ◌&&◌, not, Bool, true, false, Option, none,
  some, List, ◌∷◌, ◌⊎◌, inl, inr, Bool-cases,
}
use retrace_cpython.Frames.{Frame, frame_is_visible}
use retrace_cpython.Threads.Ids.{coordinate_hash_unset}
use retrace_cpython.Callbacks.{Callbacks}
use retrace_cpython.Callbacks.Sound.{IsCallbacks}
use retrace_cpython.Spaces.{ThreadState, chain_from}
use retrace_cpython.Spaces.Activation.{begin_visible, begin_state}
use retrace_cpython.Instructions.{
  Interp, Python, Memory, put_current, check_slots, deliver_callback, check_call_at,
}
use retrace_cpython.Instructions.Check.First.{
  Slot, slots, DueIn, First, nothing_due, first_due, later_due, check_slots-First,
}
use retrace_cpython.Instructions.Check.Spared.{Spared, Spared-refl, check_slots-Spares}
use retrace_cpython.Instructions.Transparent.Unmoved.{if_both}
use retrace_cpython.Instructions.Begin.{
  same_address, switch_if_armed, note_bytecode_thread, begin_checked, begin_callbacks, begin_frame,
  begin_instruction,
}

-- A frame that begins an instruction: if it is visible, its calls are counted from 0 again and its
-- hash is not known.
pub record Begun (frame begun : Frame) : Type 0 where
  pub hidden : frame_is_visible frame ≡ false → begun ≡ frame
  pub counts :
      frame_is_visible frame ≡ true
      → begun ≡ record frame {
        retrace = record frame.retrace {
          current_call_ordinal = 0;
          coordinate_hash = coordinate_hash_unset;
        };
      }

begin_visible-eq : {frame begun : Frame} → Begun frame begun → begin_visible frame ≡ begun
unfolding begin_visible begin_state
begin_visible-eq {frame} {begun} b = elim (Bool-cases (frame_is_visible frame)) [
  | inl y ↦ rw y (sym (b.counts y))
  | inr n ↦ rw n (sym (b.hidden n))
]

-- The thread in which the newest frame has begun the instruction.
abbrev pub with_frames : ThreadState → List Frame → ThreadState
with_frames t frames = record t { frames = frames }

-- What the start of an instruction comes to if nothing is called.
pub data Quiet (interp : Interp) (frames : List Frame) : Interp × Bool → Type 0 where
  in_callback :
      interp.current.thread_callback_active ≡ true
      → Quiet interp frames (put_current interp (with_frames interp.current frames), true)
  idle :
      (callbacks : Callbacks)
      → interp.current.thread_callback_active ≡ false
      → Spared interp.callbacks callbacks
      → Quiet interp frames (
        record {
          callbacks = callbacks;
          last_bytecode_thread = some interp.current.identity.address;
          current = with_frames interp.current frames;
          others = interp.others;
        },
        true,
      )

only_none :
    {due : Slot → ℕ → Type 0} {slots : List Slot} {found : Option ℕ}
    → First due slots none
    → First due slots found
    → found ≡ none
only_none nothing_due nothing_due = refl
only_none (later_due never rest) (first_due {callback = callback} now) = absurd (never callback now)
only_none (later_due never rest) (later_due never' rest') = only_none rest rest'

chain_from_newest :
    (frame : Frame) (frames : List Frame)
    → chain_from (frame ∷ frames) frame.address ≡ frame ∷ frames
unfolding chain_from
chain_from_newest frame frames =
    let here : (frame.address == frame.address) ≡ true = ground arith in rw here refl

-- An interpreter whose last thread is the current one.
abbrev noted : Interp → Interp
noted interp = record interp { last_bytecode_thread = some interp.current.identity.address }

last_same : (last : Option ℕ) (address : ℕ) → same_address last address ≡ true → last ≡ some address
last_same none address h = cc
last_same (some a) address h = ap (λ (n : ℕ). some n) (ground (arith, h))

module _ (python : Python) (memory : Memory) where
  unarmed_switch :
      (interp : Interp) (frame : Frame) (last : Option ℕ)
      → interp.callbacks.thread_switch_armed ≡ false
      → switch_if_armed python memory interp frame last ≡ interp
  unfolding switch_if_armed
  unarmed_switch interp frame none off = refl
  unarmed_switch interp frame (some previous) off = simp off refl

  noted-eq :
      (interp : Interp) (frame : Frame)
      → interp.callbacks.thread_switch_armed ≡ false
      → note_bytecode_thread python memory interp frame ≡ noted interp
  unfolding note_bytecode_thread
  noted-eq interp frame off =
      elim (Bool-cases (same_address interp.last_bytecode_thread interp.current.identity.address)) [
        | inl y ↦ simp y (
            ap (λ (o : Option ℕ). record interp { last_bytecode_thread = o })
              (last_same interp.last_bytecode_thread interp.current.identity.address y))
        | inr n ↦ simp n (
            ap
              (λ (i : Interp). record i {
                last_bytecode_thread = some interp.current.identity.address;
              })
              (unarmed_switch interp frame interp.last_bytecode_thread off))
      ]

  module _ (interp : Interp) (frame : Frame) (frames : List Frame)
      (sound : IsCallbacks interp.callbacks) (newest : interp.current.frames ≡ frame ∷ frames)
      (quiet : First
        (DueIn interp.current (frame ∷ frames))
        (slots memory.arrays interp.callbacks)
        none) where
    abbrev Checked : Interp × Bool → Type 0
    Checked result =
        (callbacks : Callbacks) × (result ≡ (record interp { callbacks = callbacks }, true))
        × Spared interp.callbacks callbacks

    unchecked : Checked (interp, true)
    unchecked = (interp.callbacks, refl, Spared-refl sound)

    checks :
        (result : Callbacks × Option ℕ)
        → result.1 ≡ none
        → Spared interp.callbacks result.0
        → Checked (
            deliver_callback python memory
              (record interp { callbacks = result.0 })
              frame.address
              result.1)
    unfolding deliver_callback
    checks (callbacks, none) e spared = (callbacks, refl, spared)
    checks (callbacks, some callback) e spared = absurd (cc)

    -- No callback is called at a coordinate.
    check_call_at-Checked : Checked (check_call_at python memory interp frame)
    unfolding check_call_at
    check_call_at-Checked =
        elim (Bool-cases (
          (interp.current.identity.retrace_thread_id == 0)
          || (interp.current.thread_callback_active
              || (not interp.callbacks.root.armed && not interp.callbacks.call_at_extra_armed)))) [
                | inl y ↦ rw y unchecked
                | inr n ↦
                    let chain =
                      ap (λ (fs : List Frame). chain_from fs frame.address) newest
                      ∙ chain_from_newest frame frames in
                    let e = only_none quiet (
                      check_slots-First memory.arrays interp.callbacks interp.current
                        (frame ∷ frames) sound) in
                    rw n (
                      rw chain (
                        checks
                          (check_slots memory.arrays interp.callbacks interp.current
                            (frame ∷ frames))
                          e
                          (check_slots-Spares memory.arrays interp.current (frame ∷ frames)
                            interp.callbacks sound e)))
              ]

    -- The same for the rest of the start of the instruction.
    noted-Quiet :
        (result : Interp × Bool)
        → interp.callbacks.thread_switch_armed ≡ false
        → Checked result
        → (callbacks : Callbacks) × (begin_checked python memory result frame
            ≡ (noted (record interp { callbacks = callbacks }), true))
          × Spared interp.callbacks callbacks
    unfolding begin_checked
    noted-Quiet result off (callbacks, e, spared) =
        let silent : callbacks.thread_switch_armed ≡ false = spared.flag ∙ off in
        (
          callbacks,
          ap (λ (r : Interp × Bool). begin_checked python memory r frame) e
              ∙ ap (λ (i : Interp). (i, true))
                  (noted-eq (record interp { callbacks = callbacks }) frame silent),
          spared,
        )

    abbrev Outcome : Interp × Bool → Type 0
    Outcome result =
        ((interp.current.thread_callback_active ≡ true) × (result ≡ (interp, true)))
        ⊎ ((interp.current.thread_callback_active ≡ false)
            × (callbacks : Callbacks) × (result
                ≡ (noted (record interp { callbacks = callbacks }), true))
            × Spared interp.callbacks callbacks)

    callbacks-Outcome :
        interp.callbacks.thread_switch_armed ≡ false
        → Outcome (begin_callbacks python memory interp frame)
    unfolding begin_callbacks
    callbacks-Outcome off =
        if_both Outcome interp.current.thread_callback_active (λ active. inl (active, refl))
          (λ inactive.
            let (callbacks, e, spared) = noted-Quiet _ off (
              if_both Checked
                ((interp.callbacks.root.armed || interp.callbacks.call_at_extra_armed)
                  && frame_is_visible frame)
                (λ armed. check_call_at-Checked) (λ not_armed. unchecked)) in
            inr (inactive, callbacks, e, spared))

  silent-Quiet :
      (interp : Interp) (frame : Frame) (frames : List Frame)
      → let begun = put_current interp (with_frames interp.current (frame ∷ frames)) in
        (sound : IsCallbacks interp.callbacks)
        (quiet : First
          (DueIn begun.current (frame ∷ frames))
          (slots memory.arrays begun.callbacks)
          none)
        → (result : Interp × Bool) → Outcome begun frame frames sound refl quiet result
        → Quiet interp (frame ∷ frames) result
  silent-Quiet interp frame frames sound quiet result (inl (active, e)) =
      subst (Quiet interp (frame ∷ frames)) (sym e) (in_callback active)
  silent-Quiet interp frame frames sound quiet result (inr (inactive, callbacks, e, spared)) =
      subst (Quiet interp (frame ∷ frames)) (sym e) (idle callbacks inactive spared)

  -- On a registry whose flags tell whether anything is armed, with no thread switch callback and
  -- no call_at that is due once the newest frame has begun the instruction, the start of an
  -- instruction calls nothing, whatever Python code would do, and succeeds. The newest frame
  -- counts its calls from 0 again and forgets its hash if it is visible, and is as before if
  -- not; the rest of the thread and the other threads are as before. If the thread runs a
  -- callback, nothing else changes; if not, it is the last thread to run bytecode, every thread
  -- switch callback is as before, and every call_at is as before or no longer armed.
  pub begin_instruction-Quiet :
      (interp : Interp) {frame begun : Frame} {frames : List Frame}
      → interp.current.frames ≡ frame ∷ frames
      → Begun frame begun
      → IsCallbacks interp.callbacks
      → interp.callbacks.thread_switch_armed ≡ false
      → First
          (DueIn (with_frames interp.current (begun ∷ frames)) (begun ∷ frames))
          (slots memory.arrays interp.callbacks)
          none
      → Quiet interp (begun ∷ frames) (begin_instruction python memory interp)
  unfolding begin_instruction begin_frame
  begin_instruction-Quiet interp {frame} {begun} {frames} top b sound off quiet =
      let start = put_current interp (with_frames interp.current (begun ∷ frames)) in
      let runs : begin_instruction python memory interp
          ≡ begin_callbacks python memory start begun =
        ap (λ (fs : List Frame). begin_frame python memory interp fs) top
        ∙ ap
            (λ (f : Frame).
              begin_callbacks python memory
                (put_current interp (with_frames interp.current (f ∷ frames))) f)
            (begin_visible-eq b) in
      subst (Quiet interp (begun ∷ frames)) (sym runs) (
        silent-Quiet interp begun frames sound quiet _
          (callbacks-Outcome start begun frames sound refl quiet off))
