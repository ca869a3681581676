-- ===== src/Spaces/Linked.antt =====
-- The counters that the frames of a space are linked to.
use mathlib.Core.List.{append-nil}
use retrace_cpython.Base.{
  ℕ, ◌≡◌, refl, sym, ◌∙◌, ap, arith, ◌==◌, Bool, true, false, Option, none, some, List, [], ◌∷◌,
  ◌++◌, inl, inr, Bool-cases,
}
use retrace_cpython.Words.Arith.{add64}
use retrace_cpython.Frames.{
  Frame, Counter, root_counter, frame_counter, scope_counter, in_space, counts_in, frame_is_visible,
  frame_coordinate, frame_call_ordinal,
}
use retrace_cpython.Coordinates.Fill.{coordinates}
use retrace_cpython.Spaces.Activation.{write_frame, frame_at, count_frame}
use retrace_cpython.Spaces.Writes.{frame_ordinal, Apart, another, holds}

-- The frames of the space `s` all count, each one's state points to the counter of the next older
-- one, and the oldest one's to `base`; the pointer given is that to the counter of the newest one.
pub data Chain (base : Counter) (s : ℕ) : Option Counter → List Frame → Type 0 where
  bottom : {ptr : Option Counter} → ptr ≡ some base → Chain base s ptr []
  outside :
      {ptr : Option Counter} {frame : Frame} {frames : List Frame}
      → in_space frame.retrace.space s ≡ false
      → Chain base s ptr frames
      → Chain base s ptr (frame ∷ frames)
  inside :
      {ptr : Option Counter} {frame : Frame} {frames : List Frame}
      → counts_in frame s ≡ true
      → ptr ≡ some (frame_counter frame.address)
      → Chain base s frame.retrace.previous_call_ordinal_ptr frames
      → Chain base s ptr (frame ∷ frames)

-- The newest frame of the thread may be one of the space that is not complete yet.
pub data Linked (base : Counter) (s : ℕ) : Option Counter → List Frame → Type 0 where
  settled :
      {ptr : Option Counter} {frames : List Frame}
      → Chain base s ptr frames
      → Linked base s ptr frames
  starting :
      {ptr : Option Counter} {frame : Frame} {frames : List Frame}
      → in_space frame.retrace.space s ≡ true
      → frame.incomplete ≡ true
      → frame.owned_by_cstack ≡ false
      → ptr ≡ some (frame_counter frame.address)
      → Chain base s frame.retrace.previous_call_ordinal_ptr frames
      → Linked base s ptr (frame ∷ frames)

pub coordinates-outside :
    (frame : Frame) (frames : List Frame) (s : ℕ)
    → counts_in frame s ≡ false
    → coordinates (frame ∷ frames) s ≡ coordinates frames s
unfolding coordinates
coordinates-outside frame frames s h = rw h refl

pub coordinates-inside :
    (frame : Frame) (frames : List Frame) (s : ℕ)
    → counts_in frame s ≡ true
    → coordinates (frame ∷ frames) s
      ≡ coordinates frames s ++ frame_coordinate frame ∷ frame_call_ordinal frame ∷ []
unfolding coordinates
coordinates-inside frame frames s h = rw h refl

pub counts_in-outside :
    (frame : Frame) (s : ℕ) → in_space frame.retrace.space s ≡ false → counts_in frame s ≡ false
unfolding counts_in
counts_in-outside frame s h = ground arith

-- What the chain says when a call is counted in the counter of a frame.
pub record Counted (base : Counter) (s : ℕ) (frames : List Frame) (a : ℕ) : Type 0 where
  pub older : List ℕ
  pub coordinate : ℕ
  pub ordinal : ℕ
  pub ordinal_read : frame_ordinal (frame_at frames a) ≡ ordinal
  pub before : coordinates frames s ≡ older ++ coordinate ∷ ordinal ∷ []
  pub after :
      coordinates (write_frame frames a count_frame) s ≡ older ++ coordinate ∷ add64 ordinal 1 ∷ []
  pub chain : Chain base s (some (frame_counter a)) (write_frame frames a count_frame)
  pub found : holds (frame_at frames a) ≡ true

head-Counted :
    (base : Counter) (s : ℕ) (frame : Frame) (frames : List Frame)
    → counts_in frame s ≡ true
    → Chain base s frame.retrace.previous_call_ordinal_ptr frames
    → Counted base s (frame ∷ frames) frame.address
unfolding coordinates write_frame frame_at counts_in frame_call_ordinal frame_coordinate
    frame_is_visible
head-Counted base s frame frames h c =
    let same : (frame.address == frame.address) ≡ true = ground arith in
    record {
      older = coordinates frames s;
      coordinate = frame_coordinate frame;
      ordinal = frame.retrace.current_call_ordinal;
      ordinal_read = rw same refl;
      before = rw h refl;
      after = rw (same, h) refl;
      chain = rw same (inside h refl c);
      found = rw same refl;
    }

-- A counter that is no frame's.
abbrev pub is_base : Counter → Bool
is_base (root_counter a) = true
is_base (frame_counter a) = false
is_base (scope_counter a) = true

pub apart_addresses :
    (frame : Frame) (frames : List Frame) (a : ℕ)
    → frame_at frames frame.address ≡ none
    → holds (frame_at frames a) ≡ true
    → (frame.address == a) ≡ false
apart_addresses frame frames a free found = elim (Bool-cases (frame.address == a)) [
  | inr n ↦ n
  | inl y ↦
      let e : frame.address ≡ a = ground arith in
      absurd (ground (arith, ap (λ (k : ℕ). holds (frame_at frames k)) e))
]

outside-Counted :
    {base : Counter} {s : ℕ} (frame : Frame) (frames : List Frame) (a : ℕ)
    → in_space frame.retrace.space s ≡ false
    → (frame.address == a) ≡ false
    → Counted base s frames a
    → Counted base s (frame ∷ frames) a
unfolding write_frame frame_at
outside-Counted {s = s} frame frames a out other c =
    let hidden = counts_in-outside frame s out in
    record {
      older = c.older;
      coordinate = c.coordinate;
      ordinal = c.ordinal;
      ordinal_read = rw other c.ordinal_read;
      before = coordinates-outside frame frames s hidden ∙ c.before;
      after =
          rw other
            (coordinates-outside frame (write_frame frames a count_frame) s hidden ∙ c.after);
      chain = rw other (outside out c.chain);
      found = rw other c.found;
    }

-- The frames after a call is counted.
abbrev pub counted_frames : Option Counter → List Frame → List Frame
counted_frames none frames = frames
counted_frames (some (root_counter a)) frames = frames
counted_frames (some (frame_counter a)) frames = write_frame frames a count_frame
counted_frames (some (scope_counter a)) frames = frames

-- The pointer is that to the base if no frame counts, and otherwise to the counter of a frame.
pub data Points (base : Counter) (s : ℕ) (ptr : Option Counter) (frames : List Frame) : Type 0 where
  to_base : ptr ≡ some base → coordinates frames s ≡ [] → Points base s ptr frames
  to_frame :
      (a : ℕ) → ptr ≡ some (frame_counter a) → Counted base s frames a → Points base s ptr frames

skip_outside :
    {base : Counter} {s : ℕ} {ptr : Option Counter} (frame : Frame) (frames : List Frame)
    → in_space frame.retrace.space s ≡ false
    → frame_at frames frame.address ≡ none
    → Points base s ptr frames
    → Points base s ptr (frame ∷ frames)
skip_outside {s = s} frame frames out free (to_base e nothing) =
    to_base e (coordinates-outside frame frames s (counts_in-outside frame s out) ∙ nothing)
skip_outside frame frames out free (to_frame a e c) =
    to_frame a e
      (outside-Counted frame frames a out (apart_addresses frame frames a free c.found) c)

pub Chain-Points :
    {base : Counter} {s : ℕ} {ptr : Option Counter} {frames : List Frame}
    → is_base base ≡ true
    → Chain base s ptr frames
    → Apart frames
    → Points base s ptr frames
unfolding coordinates
Chain-Points h (bottom e) apart = to_base e refl
Chain-Points h (outside {frame = frame} {frames} out c) (another free rest) =
    skip_outside frame frames out free (Chain-Points h c rest)
Chain-Points {base} {s} h (inside {frame = frame} {frames} shown e c) apart =
    to_frame frame.address e (head-Counted base s frame frames shown c)

-- The frame that is executed adds its pair, or nothing.
pub coordinates-head :
    (frame : Frame) (frames : List Frame) (s : ℕ)
    → (pair : List ℕ) × (coordinates (frame ∷ frames) s ≡ coordinates frames s ++ pair)
coordinates-head frame frames s = elim (Bool-cases (counts_in frame s)) [
  | inl y ↦ (_, coordinates-inside frame frames s y)
  | inr n ↦ ([], coordinates-outside frame frames s n ∙ sym (append-nil (coordinates frames s)))
]
