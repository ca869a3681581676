-- ===== src/Spaces/Scopes/Ids.antt =====
-- The ids of new spaces.
use retrace_cpython.Base.{ℕ, zero, suc, ◌≡◌, ◌≢◌, ◌∙◌, arith, ◌+◌, ◌-◌, ◌%◌, ◌^◌, ◌<◌}
use retrace_cpython.Frames.{space_id_disabled}
use retrace_cpython.Spaces.Scopes.{next_space_id, allocate_dynamic_space_id}

-- The id that the n-th allocation after a state returns.
abbrev pub allocated : ℕ → ℕ → ℕ
allocated zero next = (allocate_dynamic_space_id next).0
allocated (suc n) next = allocated n (allocate_dynamic_space_id next).1

-- The ids that may be allocated.
abbrev pub IsDynamic : ℕ → Type 0
IsDynamic space_id = (space_id_disabled < space_id) × (space_id < 2 ^ 32)

next-IsDynamic : (next : ℕ) → IsDynamic next → IsDynamic (next_space_id next)
unfolding next_space_id
next-IsDynamic next d = ground arith

allocated-IsDynamic : (n next : ℕ) → IsDynamic next → IsDynamic (allocated n next)
unfolding allocate_dynamic_space_id
allocated-IsDynamic zero next d = d
allocated-IsDynamic (suc n) next d =
    allocated-IsDynamic n (next_space_id next) (next-IsDynamic next d)

next-eq : (next : ℕ) → IsDynamic next → next_space_id next ≡ 2 + (next - 2 + 1) % (2 ^ 32 - 2)
unfolding next_space_id
next-eq next d = ground arith

allocated-eq : (n next : ℕ) → IsDynamic next → allocated n next ≡ 2 + (next - 2 + n) % (2 ^ 32 - 2)
unfolding allocate_dynamic_space_id
allocated-eq zero next d = omega arith
allocated-eq (suc n) next d =
    allocated-eq n (next_space_id next) (next-IsDynamic next d) ∙ omega (arith, next-eq next d)

-- From a counter of space ids that is neither that of the root nor of the disabled space and
-- below 2 ^ 32, every id that is allocated is so too, and two of less than 2 ^ 32 - 2 successive
-- allocations have different ids.
pub allocated_distinct :
    (next i j : ℕ)
    → IsDynamic next
    → i < j
    → j < i + (2 ^ 32 - 2)
    → IsDynamic (allocated i next) × (allocated i next ≢ allocated j next)
allocated_distinct next i j d less near = (
  allocated-IsDynamic i next d,
  λ e. omega (arith, allocated-eq i next d, allocated-eq j next d, e),
)
