-- ===== src/Coordinates/Cache/Rebuild.antt =====
-- A reader that keeps the coordinates it was sent rebuilds the current ones from the next delta.
use native.Mathlib.Nat.{suc-add}
use mathlib.Core.List.{append_assoc, append-nil}
use retrace_cpython.Base.{
  ℕ, zero, suc, ◌≡◌, ◌≢◌, refl, sym, ◌∙◌, ap, subst, arith, ◌+◌, ◌-◌, ◌≤◌, ◌<◌, if◌then◌else◌, Bool,
  true, false, some, List, [], ◌∷◌, ◌++◌, length, get_or, set, replicate, length-replicate, inl,
  inr, Bool-cases,
}
use retrace_cpython.Frames.{Frame, Space, frame_coordinate, frame_call_ordinal, counts_in}
use retrace_cpython.Coordinates.{coordinate_count}
use retrace_cpython.Coordinates.Fill.{coordinates, length-coordinates, drop, drop-all}
use retrace_cpython.Coordinates.Cache.{
  common_loop, emit_loop, remember, remember_frames, initial_common, common_count, answer,
  thread_delta,
}
use retrace_cpython.Coordinates.Cache.Common.{Remembers, Kept, common_loop-le, common_loop-Kept}
use retrace_cpython.Coordinates.Cache.Emit.{emit_loop-eq}

pub take : ℕ → List ℕ → List ℕ
take zero xs = []
take (suc n) [] = []
take (suc n) (x ∷ xs) = x ∷ take n xs

take-append-drop : (n : ℕ) (xs : List ℕ) → take n xs ++ drop n xs ≡ xs
unfolding take drop
take-append-drop zero xs = refl
take-append-drop (suc n) [] = refl
take-append-drop (suc n) (x ∷ xs) = ap (λ t. x ∷ t) (take-append-drop n xs)

take-eq :
    (n : ℕ) (xs ys : List ℕ)
    → n ≤ length ys
    → ((i : ℕ) → i < n → Kept xs ys i)
    → take n xs ≡ take n ys
unfolding take
take-eq zero xs ys h k = refl
take-eq (suc n) xs [] h k = absurd (omega arith)
take-eq (suc n) [] (y ∷ ys) h k = absurd (omega (arith, (k 0 (omega arith)).0))
take-eq (suc n) (x ∷ xs) (y ∷ ys) h k =
    rw
      (
        (k 0 (omega arith)).1,
        take-eq n xs ys (omega arith)
            (λ i lt. let t = k (suc i) (omega arith) in (omega (arith, t.0), t.1)),
      )
      refl

module _ (space : ℕ) where
  -- A frame after the call that may have updated its cache.
  abbrev after : Frame → Bool → Frame
  after f b = if b then remember f space else f

  after_counts : (f : Frame) (b : Bool) → counts_in (after f b) space ≡ counts_in f space
  unfolding counts_in remember
  after_counts f true = refl
  after_counts f false = refl

  after_coordinate : (f : Frame) (b : Bool) → frame_coordinate (after f b) ≡ frame_coordinate f
  unfolding frame_coordinate remember
  after_coordinate f true = refl
  after_coordinate f false = refl

  after_ordinal : (f : Frame) (b : Bool) → frame_call_ordinal (after f b) ≡ frame_call_ordinal f
  unfolding frame_call_ordinal remember
  after_ordinal f true = refl
  after_ordinal f false = refl

  same_count :
      (frames : List Frame)
      → coordinate_count (remember_frames frames space) space ≡ coordinate_count frames space
  unfolding remember_frames coordinate_count
  same_count [] = refl
  same_count (f ∷ frames) = rw (after_counts f (counts_in f space), same_count frames) refl

  same_coordinates :
      (frames : List Frame)
      → coordinates (remember_frames frames space) space ≡ coordinates frames space
  unfolding remember_frames coordinates
  same_coordinates [] = refl
  same_coordinates (f ∷ frames) =
      let b = counts_in f space in
      rw (after_counts f b, after_coordinate f b, after_ordinal f b, same_coordinates frames) refl

  get_or-middle :
      (xs more : List ℕ) (c o : ℕ)
      → (get_or (xs ++ c ∷ o ∷ more) (length xs) 0 ≡ c)
        × (get_or (xs ++ c ∷ o ∷ more) (length xs + 1) 0 ≡ o)
        × (length xs + 2 ≤ length (xs ++ c ∷ o ∷ more))
  get_or-middle [] more c o = (refl, refl, omega arith)
  get_or-middle (x ∷ xs) more c o =
      let (first, second, fits) = get_or-middle xs more c o in
      (first, rw (suc-add (length xs) 1) second, omega (arith, fits))

  -- What the cache of a frame that was just emitted says.
  emitted :
      (f : Frame) (xs more : List ℕ)
      → (get_or (xs ++ frame_coordinate f ∷ frame_call_ordinal f ∷ more) (length xs) 0
          ≡ (remember f space).retrace.delta.last_instruction_counter)
        × (get_or (xs ++ frame_coordinate f ∷ frame_call_ordinal f ∷ more) (length xs + 1) 0
            ≡ (remember f space).retrace.delta.last_call_ordinal)
        × (length xs + 2 ≤ length (xs ++ frame_coordinate f ∷ frame_call_ordinal f ∷ more))
  unfolding remember
  emitted f xs more = get_or-middle xs more (frame_coordinate f) (frame_call_ordinal f)

  abbrev pair : Frame → List ℕ
  pair f = frame_coordinate f ∷ frame_call_ordinal f ∷ []

  with_pair :
      (f : Frame) (frames : List Frame) (more : List ℕ)
      → counts_in f space ≡ true
      → coordinates (f ∷ frames) space ++ more ≡ coordinates frames space ++ (pair f ++ more)
  unfolding coordinates
  with_pair f frames more y = rw y (append_assoc (coordinates frames space) (pair f) more)

  without_pair :
      (f : Frame) (frames : List Frame) (more : List ℕ)
      → counts_in f space ≡ false
      → coordinates (f ∷ frames) space ++ more ≡ coordinates frames space ++ more
  unfolding coordinates
  without_pair f frames more n = rw n refl

  clash : (f : Frame) → counts_in f space ≡ false → counts_in f space ≢ true
  clash f n c = ground arith

  all_remembered :
      (frames : List Frame) (more : List ℕ)
      → Remembers space (coordinates frames space ++ more) (remember_frames frames space)
  unfolding remember_frames
  all_remembered [] more = tt
  all_remembered (f ∷ frames) more = elim (Bool-cases (counts_in f space)) [
    | inl y ↦ (
      λ _ _.
          rw (with_pair f frames more y, same_count frames, ← length-coordinates frames space, y)
            (emitted f (coordinates frames space) more),
      subst (λ (o : List ℕ). Remembers space o (remember_frames frames space))
          (sym (with_pair f frames more y)) (all_remembered frames (pair f ++ more)),
    )
    | inr n ↦ (
      λ c _. absurd (clash f n (sym (after_counts f (counts_in f space)) ∙ c)),
      subst (λ (o : List ℕ). Remembers space o (remember_frames frames space))
          (sym (without_pair f frames more n)) (all_remembered frames more),
    )
  ]

-- What a reader gets from a call that succeeds.
pub record Rebuilt (space : Space) (old : List ℕ) (frames : List Frame) : Type 0 where
  pub suffix : List ℕ
  pub frames' : List Frame
  pub run :
      thread_delta true (some space) frames
      ≡ answer
          (common_count space frames ∷ suffix)
          frames'
          (record space { last_delta_root_call_ordinal = space.root_call_ordinal })
  pub rebuilds : take (common_count space frames) old ++ suffix ≡ coordinates frames space.address
  pub same : coordinates frames' space.address ≡ coordinates frames space.address
  pub remembers : Remembers space.address (coordinates frames space.address) frames'

module _ (space : Space) (old : List ℕ) (frames : List Frame)
    (r : Remembers space.address old frames) where
  abbrev size : ℕ
  size = coordinate_count frames space.address

  common-le : common_count space frames ≤ size
  unfolding common_count initial_common
  common-le = ground (
    arith,
    common_loop-le frames space.address size 0,
    common_loop-le frames space.address size size,
  )

  kept :
      take (common_count space frames) old
      ≡ take (common_count space frames) (coordinates frames space.address)
  unfolding common_count
  kept =
      take-eq (common_count space frames) old (coordinates frames space.address)
        (omega (arith, common-le, length-coordinates frames space.address))
        (λ i lt.
          common_loop-Kept space.address old frames (initial_common space size) i r
            (omega (arith, lt, common-le)) (shorter i lt))
    where
      shorter :
          (i : ℕ)
          → i < common_count space frames
          → i < common_loop frames space.address size (initial_common space size)
      shorter i lt = lt

  -- The array of the delta, from its allocation to its last write.
  delta_array :
      emit_loop frames space.address size
        (common_count space frames)
        (set (replicate (1 + size - common_count space frames) 0) 0 (common_count space frames))
      ≡ common_count space frames
        ∷ drop (common_count space frames) (coordinates frames space.address)
  unfolding drop
  delta_array =
      let common = common_count space frames in
      let left = size - common in
      let one_more : 1 + size - common ≡ suc left = omega (arith, common-le) in
      let rest : List ℕ = replicate left 0 in
      let enough : length rest ≡ left = length-replicate left 0 in
      let nothing_left : drop left rest ≡ [] = drop-all left rest enough in
      rw one_more (
        emit_loop-eq common common frames space.address rest (omega (arith, enough))
        ∙ rw (nothing_left, append-nil (drop common (coordinates frames space.address))) refl)

  -- If the caches of the frames that are for the space say what was last emitted at the places
  -- where the frames stand, and the space was seen, a delta call whose array is allocated
  -- returns a common count and a suffix such that the kept part of the old coordinates followed
  -- by the suffix are the current coordinates; the coordinates are unchanged, and the caches say
  -- what is now emitted.
  pub thread_delta-Rebuilt : space.seen ≡ true → Rebuilt space old frames
  unfolding thread_delta
  thread_delta-Rebuilt seen =
      let common = common_count space frames in
      let frame_list = remember_frames frames space.address in
      record {
        suffix = drop common (coordinates frames space.address);
        frames' = frame_list;
        run = rw (seen, delta_array) refl;
        rebuilds = rw kept (take-append-drop common (coordinates frames space.address));
        same = same_coordinates space.address frames;
        remembers =
            subst (λ (o : List ℕ). Remembers space.address o frame_list)
              (append-nil (coordinates frames space.address))
              (all_remembered space.address frames []);
      }
