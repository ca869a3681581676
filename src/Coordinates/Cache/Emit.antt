-- ===== src/Coordinates/Cache/Emit.antt =====
-- The second loop writes the coordinates from the common count on.
use native.Mathlib.Nat.{suc-add, zero-add}
use mathlib.Core.List.{append_assoc}
use retrace_cpython.Base.{
  ℕ, zero, suc, ◌≡◌, refl, sym, ◌∙◌, ap, arith, ◌+◌, ◌-◌, ◌≤◌, ◌<◌, leb, true, false, List, [], ◌∷◌,
  ◌++◌, length, set, length-set, length-append, inl, inr, Bool-cases, dec_lt, ℕ_discrete,
}
use retrace_cpython.Frames.{Frame, frame_coordinate, frame_call_ordinal, counts_in}
use retrace_cpython.Coordinates.{coordinate_count}
use retrace_cpython.Coordinates.Fill.{coordinates, length-coordinates, drop, drop-set}
use retrace_cpython.Coordinates.Cache.{write_delta, emit_loop}

drop-append_left : (n : ℕ) (xs ys : List ℕ) → n ≤ length xs → drop n (xs ++ ys) ≡ drop n xs ++ ys
unfolding drop
drop-append_left zero xs ys h = refl
drop-append_left (suc n) [] ys h = absurd (omega arith)
drop-append_left (suc n) (x ∷ xs) ys h = drop-append_left n xs ys (omega arith)

drop-append_right : (k : ℕ) (xs ys : List ℕ) → drop (length xs + k) (xs ++ ys) ≡ drop k ys
unfolding drop
drop-append_right k [] ys = rw (zero-add k) refl
drop-append_right k (x ∷ xs) ys = rw (suc-add (length xs) k) (drop-append_right k xs ys)

drop_past : (n : ℕ) (xs : List ℕ) → length xs ≤ n → drop n xs ≡ []
unfolding drop
drop_past zero [] h = refl
drop_past zero (x ∷ xs) h = absurd (omega arith)
drop_past (suc n) [] h = refl
drop_past (suc n) (x ∷ xs) h = drop_past n xs (omega arith)

drop_tail-set : (xs : List ℕ) (y : ℕ) → 1 ≤ length xs → set xs 0 y ≡ y ∷ drop 1 xs
unfolding drop
drop_tail-set [] y h = absurd (omega arith)
drop_tail-set (x ∷ xs) y h = refl

two_off : (n : ℕ) → n + 2 - 2 ≡ n
two_off n = omega arith

module _ (common m c o : ℕ) (xs rest : List ℕ) (e : length xs ≡ m) where
  -- What is emitted after the pair, in the three cases of the guards.
  after_both :
      common ≤ m
      → m + 2 - common ≤ length rest
      → drop common xs ++ drop (m - common) (set (set rest (m - common) c) (m + 1 - common) o)
        ≡ drop common (xs ++ c ∷ o ∷ []) ++ drop (m + 2 - common) rest
  after_both le fits =
      let i = m - common in
      let one : m + 1 - common ≡ i + 1 = omega arith in
      let two : m + 2 - common ≡ i + 2 = omega arith in
      rw
        (
          one,
          two,
          drop-set rest i c o (omega arith),
          drop-append_left common xs (c ∷ o ∷ []) (omega (arith, e)),
        )
        (sym (append_assoc (drop common xs) (c ∷ o ∷ []) (drop (i + 2) rest)))

  after_second :
      common ≡ m + 1
      → m + 2 - common ≤ length rest
      → drop common xs ++ drop (m - common) (set rest 0 o)
        ≡ drop common (xs ++ c ∷ o ∷ []) ++ drop (m + 2 - common) rest
  unfolding drop
  after_second f fits =
      let zero_left : m - common ≡ 0 = omega arith in
      let one_left : m + 2 - common ≡ 1 = omega arith in
      let place : common ≡ length xs + 1 = omega (arith, e) in
      rw
        (
          zero_left,
          one_left,
          drop_past common xs (omega (arith, e)),
          place,
          drop-append_right 1 xs (c ∷ o ∷ []),
        )
        (drop_tail-set rest o (omega arith))

  after_neither :
      m + 2 ≤ common
      → drop common xs ++ drop (m - common) rest
        ≡ drop common (xs ++ c ∷ o ∷ []) ++ drop (m + 2 - common) rest
  after_neither le =
      let zero_left : m - common ≡ 0 = omega arith in
      let none_left : m + 2 - common ≡ 0 = omega arith in
      rw
        (
          zero_left,
          none_left,
          drop_past common xs (omega (arith, e)),
          drop_past common (xs ++ c ∷ o ∷ []) (omega (arith, e, length-append xs (c ∷ o ∷ []))),
        )
        refl

module _ (head common : ℕ) where
  written :
      (position value : ℕ) (rest : List ℕ)
      → common ≤ position
      → write_delta position common value (head ∷ rest) ≡ head ∷ set rest (position - common) value
  unfolding write_delta
  written position value rest le =
      let guard : leb common position ≡ true = ground arith in
      let index : 1 + position - common ≡ suc (position - common) = omega arith in
      rw (guard, index) refl

  not_written :
      (position value : ℕ) (rest : List ℕ)
      → position < common
      → write_delta position common value (head ∷ rest) ≡ head ∷ rest
  unfolding write_delta
  not_written position value rest lt =
      let guard : leb common position ≡ false = ground arith in rw guard refl

  -- The two writes of a frame whose pair stands at `m`.
  pair_written :
      (m c o : ℕ) (xs rest : List ℕ)
      → length xs ≡ m
      → m + 2 - common ≤ length rest
      → (rest' : List ℕ) × (write_delta (m + 1) common o (write_delta m common c (head ∷ rest))
          ≡ head ∷ rest')
        × (length rest' ≡ length rest)
        × (drop common xs ++ drop (m - common) rest'
            ≡ drop common (xs ++ c ∷ o ∷ []) ++ drop (m + 2 - common) rest)
  unfolding drop
  pair_written m c o xs rest e fits = elim (dec_lt m common) [
    | no both ↦ (
      set (set rest (m - common) c) (m + 1 - common) o,
      rw (written m c rest (omega arith), written (m + 1) o (set rest (m - common) c) (omega arith))
          refl,
      length-set (set rest (m - common) c) (m + 1 - common) o ∙ length-set rest (m - common) c,
      after_both common m c o xs rest e (omega arith) fits,
    )
    | yes late ↦ elim (ℕ_discrete common (m + 1)) [
      | yes second ↦
          let index : m + 1 - common ≡ 0 = omega arith in
          (
            set rest 0 o,
            rw (not_written m c rest late, written (m + 1) o rest (omega arith), index) refl,
            length-set rest 0 o,
            after_second common m c o xs rest e second fits,
          )
      | no neither ↦ (
        rest,
        rw (not_written m c rest late, not_written (m + 1) o rest (omega arith)) refl,
        refl,
        after_neither common m c o xs rest e (omega arith),
      )
    ]
  ]

  pub emit_loop-eq :
      (frames : List Frame) (space : ℕ) (rest : List ℕ)
      → coordinate_count frames space - common ≤ length rest
      → emit_loop frames space (coordinate_count frames space) common (head ∷ rest)
        ≡ head
          ∷ (drop common (coordinates frames space)
              ++ drop (coordinate_count frames space - common) rest)
  unfolding emit_loop coordinate_count coordinates drop
  emit_loop-eq [] space rest fits =
      let none_left : 0 - common ≡ 0 = omega arith in
      rw (none_left, drop_past common [] (omega arith)) refl
  emit_loop-eq (scan ∷ frames) space rest fits = elim (Bool-cases (counts_in scan space)) [
    | inr n ↦ rw n (emit_loop-eq frames space rest (ground arith))
    | inl y ↦
        let m = coordinate_count frames space in
        let fits' : m + 2 - common ≤ length rest = ground arith in
        let (rest', wrote, same, tail) =
          pair_written m (frame_coordinate scan) (frame_call_ordinal scan)
            (coordinates frames space) rest (length-coordinates frames space) fits' in
        rw (y, two_off m, wrote)
          (emit_loop-eq frames space rest' (omega (arith, same, fits')) ∙ ap (λ t. head ∷ t) tail)
  ]
