-- ===== src/Coordinates/Hash/Pairs.antt =====
-- The hash of a location depends on the root and the coordinates alone.
use mathlib.Core.List.{append_assoc}
use retrace_cpython.Base.{
  ℕ, ◌≡◌, refl, sym, ◌∙◌, ap, some, List, [], ◌∷◌, ◌++◌, inl, inr, Bool-cases,
}
use retrace_cpython.Frames.{Frame, Space, frame_coordinate, frame_call_ordinal, counts_in}
use retrace_cpython.Coordinates.Fill.{coordinates}
use retrace_cpython.Coordinates.Hash.{
  mix_frame_coordinate_hash, root_coordinate_hash, frame_coordinate_hash_in_space,
  mix_visible_frame_coordinates,
}

-- The pairs are mixed into the hash one after the other, the oldest first.
unfoldable pub hash_pairs : ℕ → List ℕ → ℕ
hash_pairs hash [] = hash
hash_pairs hash (counter ∷ []) = hash
hash_pairs hash (counter ∷ ordinal ∷ rest) =
    hash_pairs (mix_frame_coordinate_hash hash counter ordinal) rest

hash_pairs-append :
    (hash : ℕ) (frames : List Frame) (space : ℕ) (more : List ℕ)
    → hash_pairs hash (coordinates frames space ++ more)
      ≡ hash_pairs (hash_pairs hash (coordinates frames space)) more
unfolding hash_pairs coordinates
hash_pairs-append hash [] space more = refl
hash_pairs-append hash (f ∷ frames) space more = elim (Bool-cases (counts_in f space)) [
  | inl y ↦
      let older = coordinates frames space in
      let pair = frame_coordinate f ∷ frame_call_ordinal f ∷ [] in
      rw (y, append_assoc older pair more)
        (hash_pairs-append hash frames space (pair ++ more)
          ∙ ap (λ (h : ℕ). hash_pairs h more) (sym (hash_pairs-append hash frames space pair)))
  | inr n ↦ rw n (hash_pairs-append hash frames space more)
]

-- Mixing the visible frames of a space into a hash mixes in the pairs of the coordinates, the
-- oldest first.
pub mix_visible_frame_coordinates-eq :
    (hash : ℕ) (frames : List Frame) (space : ℕ)
    → mix_visible_frame_coordinates hash frames space ≡ hash_pairs hash (coordinates frames space)
unfolding mix_visible_frame_coordinates hash_pairs coordinates
mix_visible_frame_coordinates-eq hash [] space = refl
mix_visible_frame_coordinates-eq hash (f ∷ frames) space = elim (Bool-cases (counts_in f space)) [
  | inl y ↦
      rw
        (
          y,
          hash_pairs-append hash frames space (frame_coordinate f ∷ frame_call_ordinal f ∷ []),
          mix_visible_frame_coordinates-eq hash frames space,
        )
        refl
  | inr n ↦ rw n (mix_visible_frame_coordinates-eq hash frames space)
]

-- The two recursions over the frames agree.
recursions_agree :
    (thread_id : ℕ) (frames : List Frame) (space : Space)
    → frame_coordinate_hash_in_space thread_id frames space
      ≡ mix_visible_frame_coordinates
          (root_coordinate_hash thread_id (some space))
          frames
          space.address
unfolding frame_coordinate_hash_in_space mix_visible_frame_coordinates
recursions_agree thread_id [] space = refl
recursions_agree thread_id (f ∷ frames) space = rw (recursions_agree thread_id frames space) refl

-- The recursive hash of a thread's location in a space is the hash of its root with the pairs of
-- its coordinates mixed in, the oldest first, so that it depends on the root and the coordinates
-- alone.
pub frame_coordinate_hash_in_space-eq :
    (thread_id : ℕ) (frames : List Frame) (space : Space)
    → frame_coordinate_hash_in_space thread_id frames space
      ≡ hash_pairs (root_coordinate_hash thread_id (some space)) (coordinates frames space.address)
frame_coordinate_hash_in_space-eq thread_id frames space =
    recursions_agree thread_id frames space
    ∙ mix_visible_frame_coordinates-eq (root_coordinate_hash thread_id (some space)) frames
        space.address
