-- ===== src/Callbacks/CallAt/Check.antt =====
-- A call_at is delivered exactly when its thread reaches or passes its coordinates.
use retrace_cpython.Base.{
  ℕ, ◌≡◌, refl, ◌∙◌, ap, arith, ◌==◌, Bool, true, false, Option, none, some, List, inl, inr,
  Bool-cases,
}
use retrace_cpython.Frames.{Frame, Space, space_id_root}
use retrace_cpython.Coordinates.{
  Comparison, below, equal, above, has_array, compare_target_to_frame,
}
use retrace_cpython.Coordinates.Fill.{coordinates}
use retrace_cpython.Coordinates.Memory.{
  Comparable, Refused, has_array-Comparable, has_array-Refused,
}
use retrace_cpython.Coordinates.Order.{
  Before, Orders, comes_before, is_equal, comes_after, compare_target_to_frame-Orders,
}
use retrace_cpython.Callbacks.{Target, Callbacks}
use retrace_cpython.Callbacks.Sound.{IsCallbacks}
use retrace_cpython.Callbacks.CallAt.{
  clear_slot, clear_call_at, callback_for, deliver, check_compared, check_space, check_coordinates,
  check_call_at_slot,
}
use retrace_cpython.Callbacks.CallAt.Clear.{Cleared, clear_call_at-Cleared}

-- What a check does, by where the target stands to the coordinates of the frames.
pub data Verdict (array : Bool) (interp : Callbacks) (space_id hit : ℕ) (overshoot : Option ℕ)
    (target current : List ℕ) : Callbacks × Option ℕ → Type 0 where
  refused :
      Refused array current
      → Verdict array interp space_id hit overshoot target current (interp, none)
  waits :
      Comparable array current
      → Before current target
      → Verdict array interp space_id hit overshoot target current (interp, none)
  hits :
      {after : Callbacks}
      → Comparable array current
      → target ≡ current
      → Cleared interp space_id after
      → Verdict array interp space_id hit overshoot target current (after, some hit)
  overshoots :
      {after : Callbacks} {callback : ℕ}
      → Comparable array current
      → Before target current
      → overshoot ≡ some callback
      → Cleared interp space_id after
      → Verdict array interp space_id hit overshoot target current (after, some callback)
  drops :
      {after : Callbacks}
      → Comparable array current
      → Before target current
      → overshoot ≡ none
      → Cleared interp space_id after
      → Verdict array interp space_id hit overshoot target current (after, none)

module _ (is_root array : Bool) (interp : Callbacks) (frames : List Frame) (space_id : ℕ)
    (target : Target) where
  pub reaches_coordinates :
      (thread_id : ℕ) (space : Option Space)
      → target.armed ≡ true
      → target.thread_id ≡ thread_id
      → check_call_at_slot is_root array interp thread_id frames space_id target space
        ≡ check_coordinates is_root array interp frames space_id target target.coordinates space
  unfolding check_call_at_slot
  reaches_coordinates thread_id space armed thread = ground (arith, armed, thread)

  pub reaches_comparison :
      (cs : List ℕ) (space : Space)
      → space.seen ≡ true
      → check_coordinates is_root array interp frames space_id target (some cs) (some space)
        ≡ check_compared is_root array interp frames space_id target cs space.address
  unfolding check_coordinates check_space
  reaches_comparison cs space seen = ground (arith, seen)

  -- The whole way to the comparison.
  pub reaches :
      (cs : List ℕ) (space : Space) (found : Option Space) {thread_id : ℕ}
      → target.armed ≡ true
      → target.thread_id ≡ thread_id
      → target.coordinates ≡ some cs
      → found ≡ some space
      → space.seen ≡ true
      → check_call_at_slot is_root array interp thread_id frames space_id target found
        ≡ check_compared is_root array interp frames space_id target cs space.address
  reaches cs space found {thread_id} armed thread given here seen =
      reaches_coordinates thread_id found armed thread
      ∙ ap
          (λ (o : Option (List ℕ)).
            check_coordinates is_root array interp frames space_id target o found)
          given
      ∙ ap
          (λ (o : Option Space).
            check_coordinates is_root array interp frames space_id target (some cs) o)
          here
      ∙ reaches_comparison cs space seen

  pub compares :
      (cs : List ℕ) (space : ℕ)
      → has_array array frames space ≡ true
      → check_compared is_root array interp frames space_id target cs space
        ≡ deliver is_root interp space_id
            (callback_for target (compare_target_to_frame cs frames space))
  unfolding check_compared
  compares cs space room = ground (arith, room)

  pub compares_not :
      (cs : List ℕ) (space : ℕ)
      → has_array array frames space ≡ false
      → check_compared is_root array interp frames space_id target cs space ≡ (interp, none)
  unfolding check_compared
  compares_not cs space full = ground (arith, full)

  -- The slot is that of its space: the root's stands apart from the entries.
  module _ (sound : IsCallbacks interp) (slot : is_root ≡ (space_id == space_id_root)) where
    slot-Cleared : Cleared interp space_id (clear_slot is_root interp space_id)
    unfolding clear_slot clear_call_at
    slot-Cleared = rw slot (clear_call_at-Cleared interp sound space_id)

    passed :
        {cs current : List ℕ} (hit : ℕ) (overshoot : Option ℕ)
        → Comparable array current
        → Before cs current
        → Verdict array interp space_id hit overshoot cs current
            (deliver is_root interp space_id (some overshoot))
    unfolding deliver
    passed hit none room b = drops room b refl (clear_call_at-Cleared interp sound space_id)
    passed hit (some callback) room b = overshoots room b refl slot-Cleared

    judged :
        {cs current : List ℕ} {hit : ℕ} (c : Comparison)
        → Comparable array current
        → Orders cs current c
        → target.callback ≡ some hit
        → Verdict array interp space_id hit target.overshoot_callback cs current
            (deliver is_root interp space_id (callback_for target c))
    unfolding callback_for deliver
    judged {hit = hit} below room (comes_before b) h = passed hit target.overshoot_callback room b
    judged equal room (is_equal e) h = rw h (hits room e slot-Cleared)
    judged above room (comes_after b) h = waits room b

    compared-Verdict :
        (cs : List ℕ) (space : ℕ) {hit : ℕ}
        → target.callback ≡ some hit
        → Verdict array interp space_id hit target.overshoot_callback cs
            (coordinates frames space)
            (check_compared is_root array interp frames space_id target cs space)
    compared-Verdict cs space has = elim (Bool-cases (has_array array frames space)) [
      | inl y ↦ rw (compares cs space y) (
          judged (compare_target_to_frame cs frames space)
            (has_array-Comparable array frames space y)
            (compare_target_to_frame-Orders cs frames space) has)
      | inr n ↦ rw (compares_not cs space n) (refused (has_array-Refused array frames space n))
    ]

    -- On a registry whose flags tell whether anything is armed, the check of the slot of a space
    -- (the root's own slot for the root space, an entry for any other), armed for the thread
    -- with coordinates and a callback in a space that the thread has seen: nothing happens if
    -- the thread has coordinates and there is no memory to compare them, or while the target
    -- comes after them. If they are equal, the callback is delivered; if the target comes before
    -- them, the overshoot callback is, if there is one; and then no call_at of the space is
    -- armed, and every other call_at and every thread switch callback is as before.
    pub check_call_at_slot-Verdict :
        (cs : List ℕ) (space : Space) {hit thread_id : ℕ}
        → target.armed ≡ true
        → target.thread_id ≡ thread_id
        → target.coordinates ≡ some cs
        → target.callback ≡ some hit
        → space.seen ≡ true
        → Verdict array interp space_id hit target.overshoot_callback cs
            (coordinates frames space.address)
            (check_call_at_slot is_root array interp thread_id frames space_id target (some space))
    check_call_at_slot-Verdict cs space armed thread given has seen =
        rw (reaches cs space (some space) armed thread given refl seen)
          (compared-Verdict cs space.address has)
