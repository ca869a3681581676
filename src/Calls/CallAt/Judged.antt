-- ===== src/Calls/CallAt/Judged.antt =====
-- What `call_at` says of a target before it arms it.
use retrace_cpython.Base.{
  ℕ, ◌≡◌, refl, arith, ◌||◌, not, Bool, true, false, none, some, List, ◌⊎◌, inl, inr, Bool-cases,
  Option-cases,
}
use retrace_cpython.Frames.{Space}
use retrace_cpython.Coordinates.{
  Comparison, has_array, below, equal, above, compare_target_to_frame,
}
use retrace_cpython.Coordinates.Fill.{coordinates}
use retrace_cpython.Coordinates.Memory.{
  Comparable, Refused, has_array-Comparable, has_array-Refused,
}
use retrace_cpython.Coordinates.Order.{
  Before, Orders, comes_before, is_equal, comes_after, compare_target_to_frame-Orders,
}
use retrace_cpython.Coordinates.Order.Steps.{not-Before_self, Before-trans}
use retrace_cpython.Callbacks.{Target, is_some}
use retrace_cpython.Spaces.{ThreadState, find_thread_space, thread_state_frame}
use retrace_cpython.Calls.{
  PyError, value_error, lookup_error, memory_error, Result, ok, raise, guard, find_thread_state,
}
use retrace_cpython.Calls.Read.{seen_space}
use retrace_cpython.Calls.CallAt.{is_below, check_place, check_target}

-- A target of a thread that exists, in a space that it has been in, which it has not passed unless
-- there is an overshoot callback.
pub data Acceptable (array : Bool) (threads : List ThreadState) (space_id : ℕ) (target : Target)
    (cs : List ℕ) : Type 0 where
  acceptable :
      (tstate : ThreadState) (space : Space)
      → find_thread_state threads target.thread_id ≡ some tstate
      → seen_space (find_thread_space tstate space_id) ≡ some space
      → Comparable array (coordinates (thread_state_frame tstate space) space.address)
      → (¬ Before cs (coordinates (thread_state_frame tstate space) space.address))
        ⊎ (is_some target.overshoot_callback ≡ true)
      → Acceptable array threads space_id target cs

-- Why a target is rejected with an error.
pub data Rejected (array : Bool) (threads : List ThreadState) (space_id : ℕ) (target : Target)
    (cs : List ℕ) : PyError → Type 0 where
  unknown_thread :
      find_thread_state threads target.thread_id ≡ none
      → Rejected array threads space_id target cs lookup_error
  unknown_space :
      (tstate : ThreadState)
      → find_thread_state threads target.thread_id ≡ some tstate
      → seen_space (find_thread_space tstate space_id) ≡ none
      → Rejected array threads space_id target cs lookup_error
  no_array :
      (tstate : ThreadState) (space : Space)
      → find_thread_state threads target.thread_id ≡ some tstate
      → seen_space (find_thread_space tstate space_id) ≡ some space
      → Refused array (coordinates (thread_state_frame tstate space) space.address)
      → Rejected array threads space_id target cs memory_error
  in_past :
      (tstate : ThreadState) (space : Space)
      → find_thread_state threads target.thread_id ≡ some tstate
      → seen_space (find_thread_space tstate space_id) ≡ some space
      → Comparable array (coordinates (thread_state_frame tstate space) space.address)
      → Before cs (coordinates (thread_state_frame tstate space) space.address)
      → is_some target.overshoot_callback ≡ false
      → Rejected array threads space_id target cs value_error

pub data Judged (array : Bool) (threads : List ThreadState) (space_id : ℕ) (target : Target)
    (cs : List ℕ) : Result (Unit {0}) → Type 0 where
  accepted :
      Acceptable array threads space_id target cs → Judged array threads space_id target cs (ok tt)
  rejected :
      (e : PyError)
      → Rejected array threads space_id target cs e
      → Judged array threads space_id target cs (raise e)

not_passed :
    {cs current : List ℕ} (c : Comparison)
    → Orders cs current c
    → is_below c ≡ false
    → ¬ Before cs current
not_passed below (comes_before b) h = cc
not_passed equal (is_equal e) h = not-Before_self e
not_passed above (comes_after b) h = λ a. not-Before_self refl (Before-trans a b)

is_below-Before :
    {cs current : List ℕ} (c : Comparison)
    → Orders cs current c
    → is_below c ≡ true
    → Before cs current
is_below-Before below (comes_before b) h = b
is_below-Before equal (is_equal e) h = cc
is_below-Before above (comes_after b) h = cc

module _ (array : Bool) (threads : List ThreadState) (space_id : ℕ) (target : Target)
    (cs : List ℕ) where
  module _ (t : ThreadState) (space : Space)
      (found : find_thread_state threads target.thread_id ≡ some t)
      (seen : seen_space (find_thread_space t space_id) ≡ some space) where
    judge_compared :
        Comparable array (coordinates (thread_state_frame t space) space.address)
        → (c : Comparison) → Orders cs (coordinates (thread_state_frame t space) space.address) c
        → Judged array threads space_id target cs
            (guard (not (is_below c) || is_some target.overshoot_callback) value_error)
    judge_compared room c orders = elim (Bool-cases (is_some target.overshoot_callback)) [
      | inl y ↦
          let passes : (not (is_below c) || is_some target.overshoot_callback) ≡ true =
            ground (arith, y) in
          rw passes (accepted (acceptable t space found seen room (inr y)))
      | inr n ↦ elim (Bool-cases (is_below c)) [
        | inl past ↦
            let fails : (not (is_below c) || is_some target.overshoot_callback) ≡ false =
              ground (arith, past, n) in
            rw fails (
              rejected value_error
                (in_past t space found seen room (is_below-Before c orders past) n))
        | inr ahead ↦
            let passes : (not (is_below c) || is_some target.overshoot_callback) ≡ true =
              ground (arith, ahead) in
            rw passes
              (accepted (acceptable t space found seen room (inl (not_passed c orders ahead))))
      ]
    ]

    judge_place :
        Judged array threads space_id target cs (check_place array target cs (some space) t)
    unfolding check_place
    judge_place =
        let frames = thread_state_frame t space in
        elim (Bool-cases (has_array array frames space.address)) [
          | inl y ↦ rw y (
              judge_compared (has_array-Comparable array frames space.address y)
                (compare_target_to_frame cs frames space.address)
                (compare_target_to_frame-Orders cs frames space.address))
          | inr n ↦ rw n (
              rejected memory_error
                (no_array t space found seen (has_array-Refused array frames space.address n)))
        ]

  judge_space :
      (t : ThreadState)
      → find_thread_state threads target.thread_id ≡ some t
      → Judged array threads space_id target cs
          (check_place array target cs (seen_space (find_thread_space t space_id)) t)
  unfolding check_place
  judge_space t found = elim (Option-cases (seen_space (find_thread_space t space_id))) [
    | inl unused ↦ rw unused (rejected lookup_error (unknown_space t found unused))
    | inr (space, e) ↦ rw e (judge_place t space found e)
  ]

  -- Every target is accepted or rejected for a reason.
  pub check_target-Judged :
      Judged array threads space_id target cs
        (check_target array space_id target cs (find_thread_state threads target.thread_id))
  unfolding check_target
  check_target-Judged = elim (Option-cases (find_thread_state threads target.thread_id)) [
    | inl missing ↦ rw missing (rejected lookup_error (unknown_thread missing))
    | inr (t, e) ↦ rw e (judge_space t e)
  ]
