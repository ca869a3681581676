-- ===== src/Coordinates/Memory.antt =====
-- When the comparison of coordinates gets its memory: retracemodule.c, lines 345 to 350.
use retrace_cpython.Base.{
  ℕ, ◌≡◌, ◌≢◌, refl, sym, ◌∙◌, ap, arith, ◌==◌, Bool, true, false, List, [], ◌∷◌, length, ◌⊎◌, inl,
  inr, Bool-cases,
}
use retrace_cpython.Frames.{Frame}
use retrace_cpython.Coordinates.{coordinate_count, has_array}
use retrace_cpython.Coordinates.Fill.{coordinates, length-coordinates}

-- There are no coordinates to compare with, or there is memory for them.
abbrev pub Comparable : Bool → List ℕ → Type 0
Comparable given current = (current ≡ []) ⊎ (given ≡ true)

abbrev pub Refused : Bool → List ℕ → Type 0
Refused given current = (current ≢ []) × (given ≡ false)

no_length : (xs : List ℕ) → length xs ≡ 0 → xs ≡ []
no_length [] e = refl
no_length (x ∷ xs) e = absurd (omega (arith, e))

module _ (given : Bool) (frames : List Frame) (space : ℕ) where
  pub has_array-Comparable :
      has_array given frames space ≡ true → Comparable given (coordinates frames space)
  unfolding has_array
  has_array-Comparable h = elim (Bool-cases (coordinate_count frames space == 0)) [
    | inl y ↦
        inl (
          no_length (coordinates frames space)
            (length-coordinates frames space ∙ ground (arith, y)))
    | inr n ↦ inr (ground (arith, n, h))
  ]

  pub has_array-Refused :
      has_array given frames space ≡ false → Refused given (coordinates frames space)
  unfolding has_array
  has_array-Refused h = (
    λ e.
        let counted : coordinate_count frames space ≡ 0 =
          sym (length-coordinates frames space) ∙ ap length e in
        absurd (ground (arith, counted, h)),
    ground (arith, h),
  )

  pub Comparable-has_array :
      Comparable given (coordinates frames space) → has_array given frames space ≡ true
  unfolding has_array
  Comparable-has_array (inl e) =
      let counted : coordinate_count frames space ≡ 0 =
        sym (length-coordinates frames space) ∙ ap length e in
      ground (arith, counted)
  Comparable-has_array (inr e) = ground (arith, e)
