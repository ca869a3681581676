-- ===== src/Coordinates/Fill.antt =====
-- The array that is filled holds the pairs of the frames, from the oldest frame on.
use native.Mathlib.Nat.{suc-add}
use mathlib.Core.List.{append_assoc, append-nil}
use retrace_cpython.Base.{
  ℕ, zero, suc, ◌≡◌, refl, sym, ◌∙◌, ap, arith, ◌+◌, ◌-◌, ◌≤◌, if◌then◌else◌, List, [], ◌∷◌, ◌++◌,
  length, set, length-append, length-set, inl, inr, Bool-cases,
}
use retrace_cpython.Frames.{Frame, frame_coordinate, frame_call_ordinal, counts_in}
use retrace_cpython.Coordinates.{coordinate_count, fill_loop, fill_coordinates}

-- What a thread's frames say of a space: (instruction counter, call ordinal), oldest frame first.
unfoldable pub coordinates : List Frame → ℕ → List ℕ
coordinates [] space = []
coordinates (frame ∷ frames) space =
    let older = coordinates frames space in
    if counts_in frame space
    then older ++ frame_coordinate frame ∷ frame_call_ordinal frame ∷ []
    else older

unfoldable pub drop : ℕ → List ℕ → List ℕ
drop zero xs = xs
drop (suc n) [] = []
drop (suc n) (x ∷ xs) = drop n xs

pub length-coordinates :
    (frames : List Frame) (space : ℕ)
    → length (coordinates frames space) ≡ coordinate_count frames space
unfolding coordinates coordinate_count
length-coordinates [] space = refl
length-coordinates (frame ∷ frames) space = elim (Bool-cases (counts_in frame space)) [
  | inl y ↦ rw y (
      length-append (coordinates frames space) _
      ∙ ap (λ k. k + 2) (length-coordinates frames space))
  | inr n ↦ rw n (length-coordinates frames space)
]

-- What two writes leave from their position on.
pub drop-set :
    (xs : List ℕ) (i : ℕ) (x y : ℕ)
    → i + 2 ≤ length xs
    → drop i (set (set xs i x) (i + 1) y) ≡ x ∷ y ∷ drop (i + 2) xs
unfolding drop
drop-set [] i x y h = absurd (omega arith)
drop-set (a ∷ []) i x y h = absurd (omega arith)
drop-set (a ∷ b ∷ xs) zero x y h = refl
drop-set (a ∷ xs) (suc i) x y h = rw (suc-add i 1, suc-add i 2) (drop-set xs i x y (omega arith))

two_off : (n : ℕ) → n + 2 - 2 ≡ n
two_off n = omega arith

fill_loop-eq :
    (frames : List Frame) (space : ℕ) (array : List ℕ)
    → coordinate_count frames space ≤ length array
    → fill_loop frames space (coordinate_count frames space) array
      ≡ coordinates frames space ++ drop (coordinate_count frames space) array
unfolding fill_loop coordinate_count coordinates drop
fill_loop-eq [] space array h = refl
fill_loop-eq (frame ∷ frames) space array h = elim (Bool-cases (counts_in frame space)) [
  | inl y ↦
      let n = coordinate_count frames space in
      let fits : n + 2 ≤ length array = ground arith in
      let written = set (set array n (frame_coordinate frame)) (n + 1) (frame_call_ordinal frame) in
      let same : length written ≡ length array =
        length-set (set array n _) (n + 1) _ ∙ length-set array n _ in
      rw (y, two_off n)
        (fill_loop-eq frames space written (omega arith)
          ∙ rw (drop-set array n (frame_coordinate frame) (frame_call_ordinal frame) fits) (
              sym (
                append_assoc (coordinates frames space)
                  (frame_coordinate frame ∷ frame_call_ordinal frame ∷ []) (drop (n + 2) array))))
  | inr n ↦ rw n (fill_loop-eq frames space array (ground arith))
]

pub drop-all : (n : ℕ) (xs : List ℕ) → length xs ≡ n → drop n xs ≡ []
unfolding drop
drop-all zero [] e = refl
drop-all zero (x ∷ xs) e = absurd (omega arith)
drop-all (suc n) [] e = refl
drop-all (suc n) (x ∷ xs) e = drop-all n xs (omega arith)

-- An array with as many places as are counted is filled with the pairs of instruction counter
-- and call ordinal of the frames that count in the space, from the oldest frame on, whatever it
-- held before.
pub fill_coordinates-eq :
    (array : List ℕ) (frames : List Frame) (space : ℕ)
    → length array ≡ coordinate_count frames space
    → fill_coordinates array (coordinate_count frames space) frames space ≡ coordinates frames space
unfolding fill_coordinates
fill_coordinates-eq array frames space e =
    fill_loop-eq frames space array (omega arith)
    ∙ rw (drop-all (coordinate_count frames space) array e) (append-nil (coordinates frames space))
