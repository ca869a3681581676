-- ===== src/Coordinates/Order.antt =====
-- The comparison of a target with the coordinates of a thread is the lexicographic order.
use native.Mathlib.Nat.{suc-add}
pub mod Steps
use retrace_cpython.Base.{
  ℕ, zero, suc, ◌≡◌, refl, sym, arith, ◌+◌, ◌<◌, ltb, true, false, List, [], ◌∷◌, length, min,
  replicate, length-replicate, dec_lt,
}
use retrace_cpython.Frames.{Frame}
use retrace_cpython.Coordinates.{
  Comparison, below, equal, above, coordinate_count, compare_common, compare_sizes, or_sizes,
  compare_target_to_frame,
}
use retrace_cpython.Coordinates.Fill.{coordinates, fill_coordinates-eq, length-coordinates}

-- The lexicographic order: a sequence comes before those that it begins.
pub data Before : List ℕ → List ℕ → Type 0 where
  shorter : {y : ℕ} {ys : List ℕ} → Before [] (y ∷ ys)
  smaller : {x y : ℕ} {xs ys : List ℕ} → x < y → Before (x ∷ xs) (y ∷ ys)
  later : {x y : ℕ} {xs ys : List ℕ} → x ≡ y → Before xs ys → Before (x ∷ xs) (y ∷ ys)

-- What a comparison of two sequences says.
pub data Orders (target current : List ℕ) : Comparison → Type 0 where
  comes_before : Before target current → Orders target current below
  is_equal : target ≡ current → Orders target current equal
  comes_after : Before current target → Orders target current above

compare_common-tail :
    (common : ℕ) (x y : ℕ) (target current : List ℕ) (position : ℕ)
    → compare_common common (x ∷ target) (y ∷ current) (suc position)
      ≡ compare_common common target current position
unfolding compare_common
compare_common-tail zero x y target current position = refl
compare_common-tail (suc common) x y target current position =
    rw (suc-add position 1, compare_common-tail common x y target current (position + 1)) refl

abbrev compare_from : List ℕ → List ℕ → Comparison
compare_from target current =
    or_sizes (compare_common (min (length target) (length current)) target current 0)
      (compare_sizes (length target) (length current))

min-suc : (a b : ℕ) → min (suc a) (suc b) ≡ suc (min a b)
min-suc a b = omega arith

sizes-suc : (a b : ℕ) → compare_sizes (suc a) (suc b) ≡ compare_sizes a b
unfolding compare_sizes
sizes-suc a b = ground arith

module _ (x y : ℕ) (target current : List ℕ) where
  from_smaller : x < y → compare_from (x ∷ target) (y ∷ current) ≡ below
  unfolding compare_common or_sizes
  from_smaller lt =
      let first : ltb x y ≡ true = ground arith in
      rw (min-suc (length target) (length current), first) refl

  from_greater : y < x → compare_from (x ∷ target) (y ∷ current) ≡ above
  unfolding compare_common or_sizes
  from_greater lt =
      let first : ltb x y ≡ false = ground arith in
      let second : ltb y x ≡ true = ground arith in
      rw (min-suc (length target) (length current), first, second) refl

  from_equal : x ≡ y → compare_from (x ∷ target) (y ∷ current) ≡ compare_from target current
  unfolding compare_common
  from_equal e =
      let first : ltb x y ≡ false = ground arith in
      let second : ltb y x ≡ false = ground arith in
      rw
        (
          min-suc (length target) (length current),
          sizes-suc (length target) (length current),
          first,
          second,
          compare_common-tail (min (length target) (length current)) x y target current 0,
        )
        refl

step-Orders :
    {x y : ℕ} {target current : List ℕ} {c : Comparison}
    → x ≡ y
    → Orders target current c
    → Orders (x ∷ target) (y ∷ current) c
step-Orders e (comes_before b) = comes_before (later e b)
step-Orders e (is_equal f) = is_equal (rw (e, f) refl)
step-Orders e (comes_after b) = comes_after (later (sym e) b)

compare_from-Orders :
    (target current : List ℕ) → Orders target current (compare_from target current)
unfolding compare_common compare_sizes or_sizes
compare_from-Orders [] [] = is_equal refl
compare_from-Orders [] (y ∷ current) =
    let n = length current in
    let none_common : min 0 (suc n) ≡ 0 = omega arith in
    let less : ltb 0 (suc n) ≡ true = ground arith in rw (none_common, less) (comes_before shorter)
compare_from-Orders (x ∷ target) [] =
    let n = length target in
    let none_common : min (suc n) 0 ≡ 0 = omega arith in
    let first : ltb (suc n) 0 ≡ false = ground arith in
    let second : ltb 0 (suc n) ≡ true = ground arith in
    rw (none_common, first, second) (comes_after shorter)
compare_from-Orders (x ∷ target) (y ∷ current) = elim (dec_lt x y) [
  | yes lt ↦ rw (from_smaller x y target current lt) (comes_before (smaller lt))
  | no ge ↦ elim (dec_lt y x) [
    | yes gt ↦ rw (from_greater x y target current gt) (comes_after (smaller gt))
    | no le ↦
        let e : x ≡ y = omega arith in
        rw (from_equal x y target current e) (step-Orders e (compare_from-Orders target current))
  ]
]

-- The comparison of a target with a thread's frames says below, equal or above exactly as the
-- target comes before, equals or comes after the coordinates of the frames in the lexicographic
-- order.
pub compare_target_to_frame-Orders :
    (target : List ℕ) (frames : List Frame) (space : ℕ)
    → Orders target (coordinates frames space) (compare_target_to_frame target frames space)
unfolding compare_target_to_frame
compare_target_to_frame-Orders target frames space =
    rw
      (
        fill_coordinates-eq (replicate (coordinate_count frames space) 0) frames space
            (length-replicate (coordinate_count frames space) 0),
        ← length-coordinates frames space,
      )
      (compare_from-Orders target (coordinates frames space))
