-- ===== src/Coordinates/Cache/Common.antt =====
-- The leading coordinates that the caches confirm are those that were emitted before.
use native.Mathlib.Nat.{suc-add}
use retrace_cpython.Base.{
  ℕ, zero, suc, ◌≡◌, refl, sym, ◌∙◌, arith, ◌+◌, ◌-◌, ◌≤◌, ◌<◌, true, List, [], ◌∷◌, ◌++◌, length,
  get_or, inl, inr, Bool-cases, dec_lt, ℕ_discrete,
}
use retrace_cpython.Frames.{Frame, frame_coordinate, frame_call_ordinal, counts_in, in_space}
use retrace_cpython.Coordinates.{coordinate_count}
use retrace_cpython.Coordinates.Fill.{coordinates, length-coordinates}
use retrace_cpython.Coordinates.Cache.{narrow, common_loop}

-- A frame whose cache is for the space was last emitted at the place where it stands.
abbrev pub Remembers : ℕ → List ℕ → List Frame → Type 0
Remembers space old [] = Unit
Remembers space old (frame ∷ frames) =
    (counts_in frame space ≡ true
      → in_space frame.retrace.delta.last_delta_space space ≡ true
      → (get_or old (coordinate_count frames space) 0
          ≡ frame.retrace.delta.last_instruction_counter)
        × (get_or old (coordinate_count frames space + 1) 0 ≡ frame.retrace.delta.last_call_ordinal)
        × (coordinate_count frames space + 2 ≤ length old))
    × Remembers space old frames

module _ (scan : Frame) (space at common : ℕ) where
  narrow-le : narrow scan space at common ≤ common
  unfolding narrow
  narrow-le = ground arith

  narrow-first :
      at < narrow scan space at common
      → (in_space scan.retrace.delta.last_delta_space space ≡ true)
        × (scan.retrace.delta.last_instruction_counter ≡ frame_coordinate scan)
  unfolding narrow
  narrow-first lt = (ground arith, ground arith)

  narrow-second :
      at + 1 < narrow scan space at common
      → scan.retrace.delta.last_call_ordinal ≡ frame_call_ordinal scan
  unfolding narrow
  narrow-second lt = ground arith

pub common_loop-le :
    (frames : List Frame) (space position common : ℕ)
    → common_loop frames space position common ≤ common
unfolding common_loop
common_loop-le [] space position common = omega arith
common_loop-le (scan ∷ frames) space position common = elim (Bool-cases (counts_in scan space)) [
  | inl y ↦ rw y (
      omega (
        arith,
        common_loop-le frames space (position - 2) (narrow scan space (position - 2) common),
        narrow-le scan space (position - 2) common,
      ))
  | inr n ↦ rw n (common_loop-le frames space position common)
]

get_or-append_left :
    (xs ys : List ℕ) (i : ℕ) → i < length xs → get_or (xs ++ ys) i 0 ≡ get_or xs i 0
get_or-append_left [] ys i h = absurd (omega arith)
get_or-append_left (x ∷ xs) ys zero h = refl
get_or-append_left (x ∷ xs) ys (suc i) h = get_or-append_left xs ys i (omega arith)

get_or-pair :
    (xs : List ℕ) (c o : ℕ)
    → (get_or (xs ++ c ∷ o ∷ []) (length xs) 0 ≡ c)
      × (get_or (xs ++ c ∷ o ∷ []) (length xs + 1) 0 ≡ o)
get_or-pair [] c o = (refl, refl)
get_or-pair (x ∷ xs) c o =
    ((get_or-pair xs c o).0, rw (suc-add (length xs) 1) ((get_or-pair xs c o).1))

two_off : (n : ℕ) → n + 2 - 2 ≡ n
two_off n = omega arith

-- What is known of a leading coordinate that the loop kept.
abbrev pub Kept : List ℕ → List ℕ → ℕ → Type 0
Kept old new i = (i < length old) × (get_or old i 0 ≡ get_or new i 0)

module _ (space : ℕ) (old : List ℕ) where
  Kept-append :
      (new : List ℕ) {i : ℕ} (c o : ℕ)
      → i < length new
      → Kept old new i
      → Kept old (new ++ c ∷ o ∷ []) i
  Kept-append new {i} c o lt k = (k.0, k.1 ∙ sym (get_or-append_left new (c ∷ o ∷ []) i lt))

  Kept-first :
      (new : List ℕ) {i : ℕ} (c o : ℕ)
      → i ≡ length new
      → i < length old
      → get_or old i 0 ≡ c
      → Kept old (new ++ c ∷ o ∷ []) i
  Kept-first new c o e lt g = (lt, g ∙ rw e (sym ((get_or-pair new c o).0)))

  Kept-second :
      (new : List ℕ) {i : ℕ} (c o : ℕ)
      → i ≡ length new + 1
      → i < length old
      → get_or old i 0 ≡ o
      → Kept old (new ++ c ∷ o ∷ []) i
  Kept-second new c o e lt g = (lt, g ∙ rw e (sym ((get_or-pair new c o).1)))

  pub common_loop-Kept :
      (frames : List Frame) (common i : ℕ)
      → Remembers space old frames
      → i < coordinate_count frames space
      → i < common_loop frames space (coordinate_count frames space) common
      → Kept old (coordinates frames space) i
  unfolding common_loop coordinate_count coordinates
  common_loop-Kept [] common i r inside lt = absurd (omega arith)
  common_loop-Kept (scan ∷ frames) common i r inside lt = elim (Bool-cases (counts_in scan space)) [
    | inr n ↦ rw n (common_loop-Kept frames common i r.1 (ground arith) (ground arith))
    | inl y ↦
        let m = coordinate_count frames space in
        let next = narrow scan space m common in
        let on : i < common_loop frames space m next = rw (two_off m) at (rw y at lt) in
        let size = length-coordinates frames space in
        let within : i < next = omega (arith, on, common_loop-le frames space m next) in
        rw y (elim (dec_lt i m) [
          | yes older ↦
              Kept-append (coordinates frames space) _ _ (omega (arith, size))
                (common_loop-Kept frames next i r.1 older on)
          | no here ↦
              let (same_space, same_counter) =
                narrow-first scan space m common (omega (arith, within)) in
              let (first, second, fits) = r.0 y same_space in
              elim (ℕ_discrete i m) [
                | yes e ↦
                    Kept-first (coordinates frames space) _ _ (omega (arith, size))
                      (omega (arith, fits)) (rw e (first ∙ same_counter))
                | no ne ↦
                    let e : i ≡ m + 1 = ground arith in
                    Kept-second (coordinates frames space) _ _ (omega (arith, size))
                      (omega (arith, fits))
                      (rw e (second ∙ narrow-second scan space m common (omega (arith, within))))
              ]
        ])
  ]
