-- ===== src/Spaces/Growth/Alike.antt =====
-- The newest frame is replaced by one with the same place among the frames.
use retrace_cpython.Base.{
  ℕ, ◌≡◌, refl, sym, ◌∙◌, ap, subst, arith, true, Option, none, some, List, ◌∷◌, inl, inr,
  Bool-cases,
}
use retrace_cpython.Frames.{
  Frame, Counter, frame_counter, in_space, counts_in, frame_is_visible, frame_coordinate,
}
use retrace_cpython.Spaces.Activation.{frame_at, begin_visible}
use retrace_cpython.Spaces.Writes.{Apart, another}
use retrace_cpython.Spaces.Linked.{Chain, outside, inside, Linked, settled, starting}
use retrace_cpython.Spaces.Growth.{moved}

-- What links a frame to the others.
pub record Alike (frame frame' : Frame) : Type 0 where
  pub address : frame'.address ≡ frame.address
  pub space : frame'.retrace.space ≡ frame.retrace.space
  pub previous : frame'.retrace.previous_call_ordinal_ptr ≡ frame.retrace.previous_call_ordinal_ptr
  pub incomplete : frame'.incomplete ≡ frame.incomplete
  pub owned : frame'.owned_by_cstack ≡ frame.owned_by_cstack

pub begin_visible-Alike :
    (frame : Frame) (lasti bias : ℕ) → Alike frame (begin_visible (moved frame lasti bias))
unfolding begin_visible
begin_visible-Alike frame lasti bias =
    elim (Bool-cases (frame_is_visible (moved frame lasti bias))) [
      | inl y ↦ rw y (record {
        address = refl;
        space = refl;
        previous = refl;
        incomplete = refl;
        owned = refl;
      })
      | inr n ↦ rw n (record {
        address = refl;
        space = refl;
        previous = refl;
        incomplete = refl;
        owned = refl;
      })
    ]

-- Its coordinate is that of the instruction it moved to.
pub begin_visible-coordinate :
    (frame : Frame) → frame_coordinate (begin_visible frame) ≡ frame_coordinate frame
unfolding begin_visible frame_coordinate
begin_visible-coordinate frame = elim (Bool-cases (frame_is_visible frame)) [
  | inl y ↦ rw y refl
  | inr n ↦ rw n refl
]

pub counts_in-Alike :
    {frame frame' : Frame} (s : ℕ) → Alike frame frame' → counts_in frame' s ≡ counts_in frame s
unfolding counts_in frame_is_visible
counts_in-Alike s a = ground (arith, a.space, a.incomplete, a.owned)

pub Apart-parts :
    {frame : Frame} {frames : List Frame}
    → Apart (frame ∷ frames)
    → (frame_at frames frame.address ≡ none) × Apart frames
Apart-parts (another free rest) = (free, rest)

pub Apart-Alike :
    {frame frame' : Frame} {frames : List Frame}
    → Alike frame frame'
    → Apart (frame ∷ frames)
    → Apart (frame' ∷ frames)
Apart-Alike {frames = frames} a (another free rest) =
    another (ap (λ (k : ℕ). frame_at frames k) a.address ∙ free) rest

pub Linked-Alike :
    {base : Counter} {s : ℕ} {ptr : Option Counter} {frame frame' : Frame} {frames : List Frame}
    → Alike frame frame'
    → Linked base s ptr (frame ∷ frames)
    → Linked base s ptr (frame' ∷ frames)
Linked-Alike {s = s} a (settled (outside out c)) =
    settled (outside (ap (λ (o : Option ℕ). in_space o s) a.space ∙ out) c)
Linked-Alike {base} {s} {frames = frames} a (settled (inside shown e c)) = settled (
    inside (counts_in-Alike s a ∙ shown)
      (e ∙ ap (λ (k : ℕ). some (frame_counter k)) (sym a.address))
      (subst (λ (o : Option Counter). Chain base s o frames) (sym a.previous) c))
Linked-Alike {base} {s} {frames = frames} a (starting here incomplete owned e c) =
    starting (ap (λ (o : Option ℕ). in_space o s) a.space ∙ here) (a.incomplete ∙ incomplete)
      (a.owned ∙ owned) (e ∙ ap (λ (k : ℕ). some (frame_counter k)) (sym a.address))
      (subst (λ (o : Option Counter). Chain base s o frames) (sym a.previous) c)

-- What a frame that is in no space leaves linked.
pub Linked-inactive :
    {base : Counter} {s : ℕ} {ptr : Option Counter} {frame : Frame} {frames : List Frame}
    → frame.retrace.space ≡ none
    → Linked base s ptr (frame ∷ frames)
    → Chain base s ptr frames
unfolding counts_in
Linked-inactive e (settled (outside out c)) = c
Linked-inactive {s = s} e (settled (inside {frame = frame} shown f c)) =
    absurd (ground (arith, ap (λ (o : Option ℕ). in_space o s) e))
Linked-inactive {s = s} e (starting here incomplete owned f c) =
    absurd (ground (arith, ap (λ (o : Option ℕ). in_space o s) e))

-- A frame of the space is the one whose counter counts, and its pointer links the older ones.
pub Linked-active :
    {base : Counter} {s : ℕ} {ptr : Option Counter} {frame : Frame} {frames : List Frame}
    → in_space frame.retrace.space s ≡ true
    → Linked base s ptr (frame ∷ frames)
    → (ptr ≡ some (frame_counter frame.address))
      × Chain base s frame.retrace.previous_call_ordinal_ptr frames
Linked-active h (settled (outside out c)) = absurd (ground arith)
Linked-active h (settled (inside shown f c)) = (f, c)
Linked-active h (starting here incomplete owned f c) = (f, c)
