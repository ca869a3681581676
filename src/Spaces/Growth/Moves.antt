-- ===== src/Spaces/Growth/Moves.antt =====
-- The newest frame of a space becomes complete, or begins a later instruction.
use retrace_cpython.Base.{ℕ, ◌≡◌, refl, ◌∙◌, ap, arith, ◌<◌, true, false, some, List, [], ◌∷◌}
use retrace_cpython.Frames.{
  Frame, Counter, in_space, counts_in, frame_is_visible, frame_coordinate, frame_call_ordinal,
}
use retrace_cpython.Coordinates.Fill.{coordinates}
use retrace_cpython.Coordinates.Order.{Before, smaller, later}
use retrace_cpython.Coordinates.Order.Steps.{Before-extended, Before-under}
use retrace_cpython.Spaces.{ThreadState}
use retrace_cpython.Spaces.Activation.{begin_visible}
use retrace_cpython.Spaces.Writes.{another, count_of}
use retrace_cpython.Spaces.Linked.{inside, settled, coordinates-outside, coordinates-inside}
use retrace_cpython.Spaces.Growth.{location, RunsIn, moved}
use retrace_cpython.Spaces.Growth.Alike.{
  begin_visible-Alike, begin_visible-coordinate, counts_in-Alike, Apart-parts, Apart-Alike,
  Linked-Alike, Linked-active,
}
use retrace_cpython.Spaces.Growth.Steps.{
  Before-equal, RunsIn-frames, location-frames, top-Apart, top-Linked, location-top,
}

module _ {base : Counter} {s : ℕ} {t : ThreadState} (r : RunsIn base s t) {frame : Frame}
    {frames : List Frame} (top : t.frames ≡ frame ∷ frames) where
  pub completed :
      in_space frame.retrace.space s ≡ true
      → frame.incomplete ≡ true
      → frame.owned_by_cstack ≡ false
      → let next = record t { frames = record frame { incomplete = false } ∷ frames } in
        RunsIn base s next × Before (location base s t) (location base s next)
  unfolding counts_in frame_is_visible
  completed here incomplete owned =
      let full : Frame = record frame { incomplete = false } in
      let shown : counts_in full s ≡ true = ground (arith, here, owned) in
      let hidden : counts_in frame s ≡ false = ground (arith, incomplete) in
      let (ptr, chain) = Linked-active here (top-Linked r top) in
      let (free, rest) = Apart-parts (top-Apart r top) in
      (
        RunsIn-frames r (another free rest) (settled (inside shown ptr chain)),
        Before-equal
            (location-top r top
              ∙ ap (λ (cs : List ℕ). count_of t (some base) ∷ cs)
                  (coordinates-outside frame frames s hidden))
            (location-frames r (full ∷ frames)
              ∙ ap (λ (cs : List ℕ). count_of t (some base) ∷ cs)
                  (coordinates-inside full frames s shown))
            (later refl (
              Before-extended (coordinates frames s) (frame_coordinate full)
                (frame_call_ordinal full ∷ []))),
      )

  pub begun :
      (lasti bias : ℕ)
      → counts_in frame s ≡ true
      → frame_coordinate frame < frame_coordinate (moved frame lasti bias)
      → let next = record t { frames = begin_visible (moved frame lasti bias) ∷ frames } in
        RunsIn base s next × Before (location base s t) (location base s next)
  begun lasti bias shown grows =
      let next = begin_visible (moved frame lasti bias) in
      let a = begin_visible-Alike frame lasti bias in
      let same = begin_visible-coordinate (moved frame lasti bias) in
      (
        RunsIn-frames r (Apart-Alike a (top-Apart r top)) (Linked-Alike a (top-Linked r top)),
        Before-equal
            (location-top r top
              ∙ ap (λ (cs : List ℕ). count_of t (some base) ∷ cs)
                  (coordinates-inside frame frames s shown))
            (location-frames r (next ∷ frames)
              ∙ ap (λ (cs : List ℕ). count_of t (some base) ∷ cs)
                  (coordinates-inside next frames s (counts_in-Alike s a ∙ shown)))
            (later refl
              (Before-under (coordinates frames s) (smaller (omega (arith, grows, same))))),
      )
