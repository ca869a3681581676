-- ===== src/Spaces/Growth/Left.antt =====
-- The deactivation of the newest frame moves the place of the thread on.
use mathlib.Core.List.{append_assoc}
use retrace_cpython.Base.{
  ℕ, ◌≡◌, refl, sym, ◌∙◌, ap, subst, arith, ◌+◌, ◌<◌, ◌^◌, true, false, Option, none, some, List,
  [], ◌∷◌, ◌++◌,
}
use retrace_cpython.Frames.{
  Frame, Space, Counter, root_counter, frame_counter, scope_counter, in_space,
}
use retrace_cpython.Coordinates.Fill.{coordinates}
use retrace_cpython.Coordinates.Order.{Before, smaller, later}
use retrace_cpython.Coordinates.Order.Steps.{Before-under}
use retrace_cpython.Spaces.{ThreadState, space_at, owns, has_id}
use retrace_cpython.Spaces.Activation.{
  with_state, frame_at, count_call, count_frame, deactivated, leave_depth, is_frame_counter,
  deactivate_frame,
}
use retrace_cpython.Spaces.Writes.{
  Apart, another, holds, owns-eq-holds, frame_at-write_frame, write_frame-Apart, count_of,
  frame_ordinal, count_of-count_call, read-write_space,
}
use retrace_cpython.Spaces.Linked.{
  Chain, outside, settled, is_base, Counted, counted_frames, to_base, to_frame, Chain-Points,
  coordinates-outside, coordinates-head, counts_in-outside, apart_addresses,
}
use retrace_cpython.Spaces.Growth.{location, RunsIn}
use retrace_cpython.Spaces.Growth.Leave.{left, deactivate_frame-eq}
use retrace_cpython.Spaces.Growth.Base.{
  IsBase-is_base, IsBase-rewritten, count_of-rewritten, IsBase-count_call, count_of-count_frame,
  count_call-current, read-count_call,
}
use retrace_cpython.Spaces.Growth.Alike.{Apart-parts, Linked-active}
use retrace_cpython.Spaces.Growth.Steps.{Before-equal, top-Apart, top-Linked, location-top}

holds_of_id : (o : Option Space) (space_id : ℕ) → has_id o space_id ≡ true → holds o ≡ true
holds_of_id none space_id h = cc
holds_of_id (some space) space_id h = refl

pub base_counts_elsewhere :
    (base : Counter) (a : ℕ) → is_base base ≡ true → is_frame_counter (some base) a ≡ false
base_counts_elsewhere (root_counter b) a h = refl
base_counts_elsewhere (frame_counter b) a h = cc
base_counts_elsewhere (scope_counter b) a h = refl

pub counted_frames-base :
    (base : Counter) (frames : List Frame)
    → is_base base ≡ true
    → counted_frames (some base) frames ≡ frames
counted_frames-base (root_counter b) frames h = refl
counted_frames-base (frame_counter b) frames h = cc
counted_frames-base (scope_counter b) frames h = refl

Apart-counted :
    (ptr : Option Counter) {frame : Frame} {frames : List Frame}
    → Apart (frame ∷ frames)
    → Apart (with_state deactivated frame ∷ counted_frames ptr frames)
Apart-counted none (another free rest) = another free rest
Apart-counted (some (root_counter a)) (another free rest) = another free rest
Apart-counted (some (frame_counter a)) (another {frame} {frames} free rest) =
    another (frame_at-write_frame frames a count_frame frame.address free)
      (write_frame-Apart a count_frame rest)
Apart-counted (some (scope_counter a)) (another free rest) = another free rest

pub owned_in : {base : Counter} {s : ℕ} {t : ThreadState} → RunsIn base s t → owns t.spaces s ≡ true
owned_in {s = s} {t} r =
    owns-eq-holds t.spaces s ∙ holds_of_id (space_at t.spaces s) t.inherited_space_id r.resolved

module _ {base : Counter} {s : ℕ} {t : ThreadState} (r : RunsIn base s t) {frame : Frame}
    {frames : List Frame} (top : t.frames ≡ frame ∷ frames)
    (active : frame.retrace.space ≡ some s) where
  pub active_here : in_space frame.retrace.space s ≡ true
  active_here = ap (λ (o : Option ℕ). in_space o s) active ∙ ground arith

  left-RunsIn :
      (counter : Counter)
      → Chain base s (some counter) (counted_frames frame.retrace.previous_call_ordinal_ptr frames)
      → RunsIn base s (left s t frame frames (some counter))
  left-RunsIn counter chain =
      let ptr = frame.retrace.previous_call_ordinal_ptr in
      let same = count_call-current t ptr in
      record {
        current = same.0 ∙ r.current;
        resolved =
            read-write_space s leave_depth (λ space. refl)
              (λ (o : Option Space). has_id o (count_call t ptr).inherited_space_id) (λ space. refl)
              (count_call t ptr).spaces s
            ∙ ap (λ (id : ℕ). has_id (space_at (count_call t ptr).spaces s) id) (same.1)
            ∙ read-count_call (λ (o : Option Space). has_id o t.inherited_space_id) (λ space. refl)
                t ptr s
            ∙ r.resolved;
        based =
            IsBase-rewritten s leave_depth (λ space. refl) (λ space. refl) (count_call t ptr)
              (with_state deactivated frame ∷ counted_frames ptr frames) (some counter) base
              (IsBase-count_call t ptr base r.based);
        apart = Apart-counted ptr (top-Apart r top);
        linked = settled (outside refl chain);
      }

  left-location :
      (ptr : Option Counter)
      → location base s (left s t frame frames ptr)
        ≡ count_of (count_call t frame.retrace.previous_call_ordinal_ptr) (some base)
          ∷ coordinates (counted_frames frame.retrace.previous_call_ordinal_ptr frames) s
  left-location ptr =
      let previous = frame.retrace.previous_call_ordinal_ptr in
      let gone = with_state deactivated frame in
      let older = counted_frames previous frames in
      ap (λ (n : ℕ). n ∷ coordinates (gone ∷ older) s)
        (count_of-rewritten s leave_depth (λ space. refl) (λ space. refl) (count_call t previous)
          (gone ∷ older) ptr base (IsBase-is_base t base r.based))
      ∙ ap (λ (cs : List ℕ). count_of (count_call t previous) (some base) ∷ cs)
          (coordinates-outside gone older s (counts_in-outside gone s refl))

  abbrev Onwards : ThreadState → Type 0
  Onwards next = RunsIn base s next × Before (location base s t) (location base s next)

  module _ (small : count_of t frame.retrace.previous_call_ordinal_ptr + 1 < 2 ^ 64) where
    left_at_base :
        frame.retrace.previous_call_ordinal_ptr ≡ some base
        → Chain base s frame.retrace.previous_call_ordinal_ptr frames
        → Onwards (deactivate_frame t frame.address)
    left_at_base e chain =
        let a_base = IsBase-is_base t base r.based in
        let older_frames =
          ap (λ (o : Option Counter). counted_frames o frames) e
          ∙ counted_frames-base base frames a_base in
        let kept =
          subst (λ (fs : List Frame). Chain base s (some base) fs) (sym older_frames)
            (subst (λ (o : Option Counter). Chain base s o frames) e chain) in
        let counted =
          ap (λ (o : Option Counter). count_of (count_call t o) (some base)) e
          ∙ count_of-count_call t base r.based
              (subst (λ (o : Option Counter). count_of t o + 1 < 2 ^ 64) e small) in
        let leaves =
          deactivate_frame-eq t top active (owned_in r) base
            ((Linked-active active_here (top-Linked r top)).0) e
            (ap (λ (o : Option Counter). is_frame_counter o frame.address) e
              ∙ base_counts_elsewhere base frame.address a_base) in
        subst Onwards (sym leaves) (
          left-RunsIn base kept,
          Before-equal (location-top r top) (left-location (some base))
              (smaller (omega (arith, counted))),
        )

    left_at_frame :
        (a : ℕ)
        → frame.retrace.previous_call_ordinal_ptr ≡ some (frame_counter a)
        → Counted base s frames a
        → Onwards (deactivate_frame t frame.address)
    unfolding count_of frame_at
    left_at_frame a e c =
        let a_base = IsBase-is_base t base r.based in
        let previous = frame.retrace.previous_call_ordinal_ptr in
        let (free, rest) = Apart-parts (top-Apart r top) in
        let other = apart_addresses frame frames a free c.found in
        let older_frames = ap (λ (o : Option Counter). counted_frames o frames) e in
        let kept =
          subst (λ (fs : List Frame). Chain base s (some (frame_counter a)) fs) (sym older_frames)
            c.chain in
        let counted =
          ap (λ (o : Option Counter). count_of (count_call t o) (some base)) e
          ∙ count_of-count_frame t a base a_base in
        let ordinal : count_of t previous ≡ c.ordinal =
          ap (λ (o : Option Counter). count_of t o) e
          ∙ ap (λ (fs : List Frame). frame_ordinal (frame_at fs a)) top
          ∙ (rw other c.ordinal_read) in
        let leaves =
          deactivate_frame-eq t top active (owned_in r) (frame_counter a)
            ((Linked-active active_here (top-Linked r top)).0) e
            (ap (λ (o : Option Counter). is_frame_counter o frame.address) e ∙ ground arith) in
        let (pair, before) = coordinates-head frame frames s in
        let old =
          before
          ∙ ap (λ (cs : List ℕ). cs ++ pair) c.before
          ∙ append_assoc c.older (c.coordinate ∷ c.ordinal ∷ []) pair in
        let new = ap (λ (fs : List Frame). coordinates fs s) older_frames ∙ c.after in
        subst Onwards (sym leaves) (
          left-RunsIn (frame_counter a) kept,
          Before-equal (location-top r top) (left-location (some (frame_counter a))) (
              later (sym counted) (
                Before-equal old new
                  (Before-under c.older (later refl (smaller (omega (arith, ordinal, small))))))),
        )

    -- A deactivation.
    pub left-Onwards : Onwards (deactivate_frame t frame.address)
    left-Onwards =
        let (ptr, chain) = Linked-active active_here (top-Linked r top) in
        let (free, rest) = Apart-parts (top-Apart r top) in
        elim (Chain-Points (IsBase-is_base t base r.based) chain rest) [
          | to_base e nothing ↦ left_at_base e chain
          | to_frame a e c ↦ left_at_frame a e c
        ]
