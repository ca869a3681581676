-- ===== src/Spaces/Growth/Pair.antt =====
-- An activation and its deactivation: the caller's counter goes up by one, and the rest is as before.
use retrace_cpython.Base.{
  ℕ, ◌≡◌, refl, sym, ◌∙◌, ap, subst, arith, ◌+◌, ◌-◌, ◌<◌, ◌^◌, ◌==◌, Bool, true, false, Option,
  none, some, List, [], ◌∷◌, inl, inr, Bool-cases,
}
use retrace_cpython.Frames.{Frame, Space, Counter, frame_counter}
use retrace_cpython.Spaces.{ThreadState, Calloc, space_at}
use retrace_cpython.Spaces.Activation.{
  with_state, write_frame, frame_at, activated, deactivated, enter_depth, leave_depth, count_call,
  count_frame, is_frame_counter, activate_frame, deactivate_frame,
}
use retrace_cpython.Spaces.Writes.{
  holds, changed, frame_at-head, count_of, frame_ordinal, count_of-count_call, write_space_self,
  owns-write_space,
}
use retrace_cpython.Spaces.Linked.{counted_frames, to_base, to_frame, Chain-Points, apart_addresses}
use retrace_cpython.Spaces.Growth.{RunsIn}
use retrace_cpython.Spaces.Growth.Enter.{entered, activate_frame-eq}
use retrace_cpython.Spaces.Growth.Leave.{left, deactivate_frame-eq}
use retrace_cpython.Spaces.Growth.Base.{
  IsBase-is_base, IsBase-rewritten, count_of-rewritten, count_call-current, read-count_call,
}
use retrace_cpython.Spaces.Growth.Alike.{Apart-parts, Linked-inactive}
use retrace_cpython.Spaces.Growth.Steps.{top-Apart, top-Linked}
use retrace_cpython.Spaces.Growth.Left.{base_counts_elsewhere, owned_in}

abbrev pub depth_of : Option Space → ℕ
depth_of none = 0
depth_of (some space) = space.depth

frame_at-count :
    (frames : List Frame) (a : ℕ)
    → holds (frame_at frames a) ≡ true
    → frame_ordinal (frame_at frames a) + 1 < 2 ^ 64
    → frame_ordinal (frame_at (write_frame frames a count_frame) a)
      ≡ frame_ordinal (frame_at frames a) + 1
unfolding frame_at write_frame
frame_at-count [] a h small = cc
frame_at-count (frame ∷ frames) a h small = elim (Bool-cases (frame.address == a)) [
  | inl y ↦ ground (arith, y, small)
  | inr n ↦ rw (n, n) (frame_at-count frames a (ground (arith, n, h)) (ground (arith, n, small)))
]

deeper_and_back :
    (o : Option Space)
    → depth_of o < 2 ^ 32 - 1
    → depth_of (changed leave_depth (changed enter_depth o)) ≡ depth_of o
deeper_and_back none h = refl
deeper_and_back (some space) h = ground arith

-- The thread after the two calls.
abbrev pub visited : ℕ → ThreadState → Frame → List Frame → Counter → ThreadState
visited s t frame frames counter =
    left s (entered s t frame frames) (with_state (activated s t.call_ordinal_ptr) frame) frames
      (some counter)

-- What it has in common with the thread before.
pub record Restored (s : ℕ) (t : ThreadState) (frame : Frame) (u : ThreadState) : Type 0 where
  pub pointer : u.call_ordinal_ptr ≡ t.call_ordinal_ptr
  pub current : u.current_space ≡ t.current_space
  pub depth : depth_of (space_at u.spaces s) ≡ depth_of (space_at t.spaces s)
  pub counted : count_of u t.call_ordinal_ptr ≡ count_of t t.call_ordinal_ptr + 1
  pub closed : frame_at u.frames frame.address ≡ some (with_state deactivated frame)

module _ {base : Counter} {s : ℕ} {t : ThreadState} (calloc : Calloc) (r : RunsIn base s t)
    {frame : Frame} {frames : List Frame} (top : t.frames ≡ frame ∷ frames)
    (inactive : frame.retrace.space ≡ none) where
  visited-depth :
      (counter : Counter)
      → depth_of (space_at t.spaces s) < 2 ^ 32 - 1
      → depth_of (space_at (visited s t frame frames counter).spaces s)
        ≡ depth_of (space_at t.spaces s)
  visited-depth counter h =
      let e = entered s t frame frames in
      let ptr = t.call_ordinal_ptr in
      ap depth_of (write_space_self s leave_depth (λ space. refl) (count_call e ptr).spaces)
      ∙ read-count_call (λ (o : Option Space). depth_of (changed leave_depth o)) (λ space. refl) e
          ptr s
      ∙ ap (λ (o : Option Space). depth_of (changed leave_depth o))
          (write_space_self s enter_depth (λ space. refl) t.spaces)
      ∙ deeper_and_back (space_at t.spaces s) h

  visited-eq :
      (counter : Counter)
      → t.call_ordinal_ptr ≡ some counter
      → is_frame_counter t.call_ordinal_ptr frame.address ≡ false
      → deactivate_frame (activate_frame calloc t frame.address).0 frame.address
        ≡ visited s t frame frames counter
  visited-eq counter ptr older =
      ap (λ (p : ThreadState × Bool). deactivate_frame p.0 frame.address)
        (activate_frame-eq calloc t r.current r.resolved top inactive)
      ∙ deactivate_frame-eq (entered s t frame frames) refl refl
          (owns-write_space s enter_depth (λ space. refl) t.spaces s ∙ owned_in r) counter refl ptr
          older

  module _ (small : count_of t t.call_ordinal_ptr + 1 < 2 ^ 64) where
    counted_at_base :
        t.call_ordinal_ptr ≡ some base
        → count_of (visited s t frame frames base) t.call_ordinal_ptr
          ≡ count_of t t.call_ordinal_ptr + 1
    counted_at_base e =
        let before = entered s t frame frames in
        let ptr = t.call_ordinal_ptr in
        let a_base = IsBase-is_base t base r.based in
        let kept =
          count_of-rewritten s enter_depth (λ space. refl) (λ space. refl) t before.frames
            before.call_ordinal_ptr base a_base in
        let based =
          IsBase-rewritten s enter_depth (λ space. refl) (λ space. refl) t before.frames
            before.call_ordinal_ptr base r.based in
        let bound = subst (λ (o : Option Counter). count_of t o + 1 < 2 ^ 64) e small in
        ap (λ (o : Option Counter). count_of (visited s t frame frames base) o) e
        ∙ count_of-rewritten s leave_depth (λ space. refl) (λ space. refl) (count_call before ptr)
            (visited s t frame frames base).frames (some base) base a_base
        ∙ ap (λ (o : Option Counter). count_of (count_call before o) (some base)) e
        ∙ count_of-count_call before base based (omega (arith, kept, bound))
        ∙ ap (λ (n : ℕ). n + 1) kept
        ∙ ap (λ (o : Option Counter). count_of t o + 1) (sym e)

    counted_at_frame :
        (a : ℕ)
        → t.call_ordinal_ptr ≡ some (frame_counter a)
        → (frame.address == a) ≡ false
        → holds (frame_at frames a) ≡ true
        → count_of (visited s t frame frames (frame_counter a)) t.call_ordinal_ptr
          ≡ count_of t t.call_ordinal_ptr + 1
    unfolding count_of frame_at
    counted_at_frame a e other found =
        let before : count_of t t.call_ordinal_ptr ≡ frame_ordinal (frame_at frames a) =
          ap (λ (o : Option Counter). count_of t o) e
          ∙ ap (λ (fs : List Frame). frame_ordinal (frame_at fs a)) top
          ∙ (rw other refl) in
        let after : count_of (visited s t frame frames (frame_counter a)) (some (frame_counter a))
            ≡ frame_ordinal (frame_at (counted_frames t.call_ordinal_ptr frames) a) =
          rw other refl in
        ap (λ (o : Option Counter). count_of (visited s t frame frames (frame_counter a)) o) e
        ∙ after
        ∙ ap (λ (o : Option Counter). frame_ordinal (frame_at (counted_frames o frames) a)) e
        ∙ frame_at-count frames a found (omega (arith, before, small))
        ∙ ap (λ (n : ℕ). n + 1) (sym before)

    visited-Restored :
        (counter : Counter)
        → depth_of (space_at t.spaces s) < 2 ^ 32 - 1
        → t.call_ordinal_ptr ≡ some counter
        → is_frame_counter t.call_ordinal_ptr frame.address ≡ false
        → count_of (visited s t frame frames counter) t.call_ordinal_ptr
          ≡ count_of t t.call_ordinal_ptr + 1
        → Restored s t frame
            (deactivate_frame (activate_frame calloc t frame.address).0 frame.address)
    visited-Restored counter shallow e older counts =
        subst (λ (u : ThreadState). Restored s t frame u) (sym (visited-eq counter e older))
          (record {
            pointer = sym e;
            current = (count_call-current (entered s t frame frames) t.call_ordinal_ptr).0;
            depth = visited-depth counter shallow;
            counted = counts;
            closed =
                frame_at-head (with_state deactivated frame)
                  (counted_frames t.call_ordinal_ptr frames);
          })

    -- When a thread whose frames are linked activates its newest frame, which is in no space,
    -- and deactivates it again, the counter pointed to before is one higher and is pointed to
    -- again, the depth and the current space are as before, and the frame is in no space, if the
    -- depth is below 2 ^ 32 - 1 and the counter does not overflow.
    pub deactivate-activate-Restored :
        depth_of (space_at t.spaces s) < 2 ^ 32 - 1
        → Restored s t frame
            (deactivate_frame (activate_frame calloc t frame.address).0 frame.address)
    deactivate-activate-Restored shallow =
        let (free, rest) = Apart-parts (top-Apart r top) in
        let a_base = IsBase-is_base t base r.based in
        elim (Chain-Points a_base (Linked-inactive inactive (top-Linked r top)) rest) [
          | to_base e nothing ↦
              visited-Restored base shallow e
                (ap (λ (o : Option Counter). is_frame_counter o frame.address) e
                  ∙ base_counts_elsewhere base frame.address a_base)
                (counted_at_base e)
          | to_frame a e c ↦
              let other = apart_addresses frame frames a free c.found in
              let elsewhere : (a == frame.address) ≡ false = ground arith in
              visited-Restored (frame_counter a) shallow e
                (ap (λ (o : Option Counter). is_frame_counter o frame.address) e ∙ elsewhere)
                (counted_at_frame a e other c.found)
        ]
