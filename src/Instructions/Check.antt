-- ===== src/Instructions/Check.antt =====
-- The callback that a check delivers is that of the first slot that is due.
pub mod First
pub mod Spared
use retrace_cpython.Base.{
  ℕ, ◌≡◌, refl, sym, ◌∙◌, ap, subst, arith, ◌==◌, not, ◌||◌, if◌then◌else◌, Bool, true, false,
  Option, none, some, List, [], ◌∷◌, map, ◌⊎◌, inl, inr, Bool-cases, Option-cases, ℕ_discrete,
}
use retrace_cpython.Frames.{Frame, Space, space_id_root}
use retrace_cpython.Coordinates.{
  Comparison, below, equal, above, has_array, compare_target_to_frame,
}
use retrace_cpython.Coordinates.Fill.{coordinates}
use retrace_cpython.Coordinates.Memory.{Comparable, has_array-Comparable, Comparable-has_array}
use retrace_cpython.Coordinates.Order.{
  Before, Orders, comes_before, is_equal, comes_after, compare_target_to_frame-Orders,
}
use retrace_cpython.Coordinates.Order.Steps.{not-Before_self, Before-trans}
use retrace_cpython.Callbacks.{Target, CallbackState, Callbacks, some_armed}
use retrace_cpython.Callbacks.Sound.{IsCallbacks}
use retrace_cpython.Callbacks.CallAt.{
  callback_for, deliver, clear_call_at, check_compared, check_space, check_coordinates,
  check_call_at_slot,
}
use retrace_cpython.Callbacks.CallAt.Check.{reaches_coordinates, reaches, compares}
use retrace_cpython.Spaces.{ThreadState, find_thread_space}
use retrace_cpython.Instructions.{walk_entries, check_slots}

-- When a call_at of a thread is due with a callback: the thread stands at the coordinates, or it has
-- passed them and there is an overshoot callback, and there is memory for the comparison.
pub data Due (array : Bool) (thread_id : ℕ) (frames : List Frame) (target : Target)
    (found : Option Space) (callback : ℕ) : Type 0 where
  reached :
      (target_coordinates : List ℕ) (space : Space)
      → target.armed ≡ true
      → target.thread_id ≡ thread_id
      → target.coordinates ≡ some target_coordinates
      → found ≡ some space
      → space.seen ≡ true
      → Comparable array (coordinates frames space.address)
      → target_coordinates ≡ coordinates frames space.address
      → target.callback ≡ some callback
      → Due array thread_id frames target found callback
  passed :
      (target_coordinates : List ℕ) (space : Space)
      → target.armed ≡ true
      → target.thread_id ≡ thread_id
      → target.coordinates ≡ some target_coordinates
      → found ≡ some space
      → space.seen ≡ true
      → Comparable array (coordinates frames space.address)
      → Before target_coordinates (coordinates frames space.address)
      → target.overshoot_callback ≡ some callback
      → Due array thread_id frames target found callback

abbrev flat : Option (Option ℕ) → Option ℕ
flat none = none
flat (some o) = o

deliver-flat :
    (is_root : Bool) (interp : Callbacks) (id : ℕ) (o : Option (Option ℕ))
    → (deliver is_root interp id o).1 ≡ flat o
unfolding deliver
deliver-flat is_root interp id none = refl
deliver-flat is_root interp id (some none) = refl
deliver-flat is_root interp id (some (some c)) = refl

module _ (is_root array : Bool) (interp : Callbacks) (frames : List Frame) (id : ℕ)
    (target : Target) (thread_id : ℕ) where
  abbrev checked : Option Space → Callbacks × Option ℕ
  checked found = check_call_at_slot is_root array interp thread_id frames id target found

  -- What a comparison calls for.
  judged :
      {callback : ℕ} {cs current : List ℕ} (c : Comparison)
      → Orders cs current c
      → flat (callback_for target c) ≡ some callback
      → ((cs ≡ current) × (target.callback ≡ some callback))
        ⊎ (Before cs current × (target.overshoot_callback ≡ some callback))
  unfolding callback_for
  judged below (comes_before b) e = inr (b, e)
  judged equal (is_equal f) e = inl (f, e)
  judged above (comes_after b) e = cc

  delivered_in :
      (cs : List ℕ) (space : Space) (callback : ℕ)
      → (check_space is_root array interp frames id target cs (some space)).1 ≡ some callback
      → (space.seen ≡ true)
        × (has_array array frames space.address ≡ true)
        × (flat (callback_for target (compare_target_to_frame cs frames space.address))
            ≡ some callback)
  unfolding check_space check_compared
  delivered_in cs space callback e =
      let seen : space.seen ≡ true = ground (arith, e) in
      let memory : has_array array frames space.address ≡ true = ground (arith, seen, e) in
      (
        seen,
        memory,
        sym (
              deliver-flat is_root interp id
                (callback_for target (compare_target_to_frame cs frames space.address)))
            ∙ ground (arith, seen, memory, e),
      )

  armed_for :
      (found : Option Space) (callback : ℕ)
      → (checked found).1 ≡ some callback
      → (target.armed ≡ true) × (target.thread_id ≡ thread_id)
  unfolding check_call_at_slot
  armed_for found callback e = (ground (arith, e), ground (arith, e))

  through_coordinates :
      (found : Option Space) (callback : ℕ)
      → (checked found).1 ≡ some callback
      → (check_coordinates is_root array interp frames id target target.coordinates found).1
        ≡ some callback
  through_coordinates found callback e =
      let (armed, thread) = armed_for found callback e in
      ap (λ (r : Callbacks × Option ℕ). r.1)
        (sym
          (reaches_coordinates is_root array interp frames id target thread_id found armed thread))
      ∙ e

  delivered_cases :
      (given : Option (List ℕ)) (found : Option Space) (callback : ℕ)
      → (check_coordinates is_root array interp frames id target given found).1 ≡ some callback
      → (cs : List ℕ) × (space : Space) × (given ≡ some cs)
        × (found ≡ some space)
        × ((check_space is_root array interp frames id target cs (some space)).1 ≡ some callback)
  unfolding check_coordinates check_space
  delivered_cases none found callback e = cc
  delivered_cases (some cs) none callback e = cc
  delivered_cases (some cs) (some space) callback e = (cs, space, refl, refl, e)

  -- A callback that a check of a slot delivers is due.
  pub delivered-Due :
      (found : Option Space) (callback : ℕ)
      → (checked found).1 ≡ some callback
      → Due array thread_id frames target found callback
  delivered-Due found callback e =
      let (armed, thread) = armed_for found callback e in
      let (cs, space, given, here, runs) =
        delivered_cases target.coordinates found callback (through_coordinates found callback e) in
      let (seen, memory, called) = delivered_in cs space callback runs in
      let room = has_array-Comparable array frames space.address memory in
      elim (judged (compare_target_to_frame cs frames space.address)
        (compare_target_to_frame-Orders cs frames space.address) called) [
          | inl (same, has) ↦ reached cs space armed thread given here seen room same has
          | inr (before, has) ↦ passed cs space armed thread given here seen room before has
        ]

  due_runs :
      (cs : List ℕ) (space : Space) (found : Option Space)
      → target.armed ≡ true
      → target.thread_id ≡ thread_id
      → target.coordinates ≡ some cs
      → found ≡ some space
      → space.seen ≡ true
      → Comparable array (coordinates frames space.address)
      → (checked found).1
        ≡ flat (callback_for target (compare_target_to_frame cs frames space.address))
  due_runs cs space found armed thread given here seen room =
      ap (λ (r : Callbacks × Option ℕ). r.1)
        (reaches is_root array interp frames id target cs space found armed thread given here seen
          ∙ compares is_root array interp frames id target cs space.address
              (Comparable-has_array array frames space.address room))
      ∙ deliver-flat is_root interp id
          (callback_for target (compare_target_to_frame cs frames space.address))

  compared_equal :
      {cs current : List ℕ} (c : Comparison)
      → Orders cs current c
      → cs ≡ current
      → callback_for target c ≡ some target.callback
  unfolding callback_for
  compared_equal below (comes_before b) e = absurd (not-Before_self e b)
  compared_equal equal (is_equal f) e = refl
  compared_equal above (comes_after b) e = absurd (not-Before_self (sym e) b)

  compared-Before :
      {cs current : List ℕ} (c : Comparison)
      → Orders cs current c
      → Before cs current
      → callback_for target c ≡ some target.overshoot_callback
  unfolding callback_for
  compared-Before below (comes_before b) e = refl
  compared-Before equal (is_equal f) b = absurd (not-Before_self f b)
  compared-Before above (comes_after b) e = absurd (not-Before_self refl (Before-trans b e))

  -- A callback that is due is delivered.
  pub Due-delivered :
      (found : Option Space) (callback : ℕ)
      → Due array thread_id frames target found callback
      → (checked found).1 ≡ some callback
  Due-delivered found callback (reached cs space armed thread given here seen room same has) =
      due_runs cs space found armed thread given here seen room
      ∙ ap flat (
          compared_equal (compare_target_to_frame cs frames space.address)
            (compare_target_to_frame-Orders cs frames space.address) same)
      ∙ has
  Due-delivered found callback (passed cs space armed thread given here seen room before has) =
      due_runs cs space found armed thread given here seen room
      ∙ ap flat (
          compared-Before (compare_target_to_frame cs frames space.address)
            (compare_target_to_frame-Orders cs frames space.address) before)
      ∙ has
