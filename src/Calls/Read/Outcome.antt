-- ===== src/Calls/Read/Outcome.antt =====
-- What reading the coordinates of a thread that may run meanwhile comes to.
use retrace_cpython.Base.{
  ℕ, ◌≡◌, ◌≢◌, sym, ◌∙◌, ap, subst, arith, ◌==◌, ◌||◌, Bool, false, Option, none, some, List,
  replicate, length-replicate, ◌⊎◌, inl, inr, Bool-cases, Option-cases,
}
use retrace_cpython.Frames.{Frame, Space}
use retrace_cpython.Coordinates.{coordinate_count, fill_coordinates}
use retrace_cpython.Coordinates.Fill.{coordinates, drop, fill_coordinates-eq}
use retrace_cpython.Spaces.{ThreadState, find_thread_space, thread_state_frame}
use retrace_cpython.Calls.{
  lookup_error, runtime_error, memory_error, Result, ok, raise, guard, ◌>>=◌, ◌>>◌,
}
use retrace_cpython.Calls.Read.{
  Asked, Locked, target_thread, seen_space, place_in, place_of, locate, read_again, read_first,
  coordinates_locked,
}

abbrev pub Place : Type 0
Place = Space × List Frame

-- What a lookup under the lock finds: no thread; a space that the thread has never been in; or a
-- space of the thread with its frames.
pub data Finds (world : Locked) (asked : Asked) (space_id : ℕ)
    : Result (Option Place) → Type 0 where
  no_thread :
      target_thread world.threads world.current asked ≡ none
      → Finds world asked space_id (raise lookup_error)
  no_space :
      (tstate : ThreadState)
      → target_thread world.threads world.current asked ≡ some tstate
      → seen_space (find_thread_space tstate space_id) ≡ none
      → Finds world asked space_id (ok none)
  a_place :
      (tstate : ThreadState) (space : Space)
      → target_thread world.threads world.current asked ≡ some tstate
      → seen_space (find_thread_space tstate space_id) ≡ some space
      → Finds world asked space_id (ok (some (space, thread_state_frame tstate space)))

locate-Finds :
    (world : Locked) (asked : Asked) (id : ℕ) → Finds world asked id (locate world asked id)
unfolding locate place_of place_in
locate-Finds world asked id =
    elim (Option-cases (target_thread world.threads world.current asked)) [
      | inl missing ↦ rw missing (no_thread missing)
      | inr (t, e) ↦ rw e (elim (Option-cases (seen_space (find_thread_space t id))) [
        | inl unused ↦ rw unused (no_space t e unused)
        | inr (space, f) ↦ rw f (a_place t space e f)
      ])
    ]

-- What a call comes to, by what the two lookups found.
pub data Answers (first second : Locked) (asked : Asked) (space_id skipped : ℕ)
    (allocated made : Bool) : Result (Option (List ℕ)) → Type 0 where
  unknown_first :
      Finds first asked space_id (raise lookup_error)
      → Answers first second asked space_id skipped allocated made (raise lookup_error)
  unknown_second :
      (place : Place)
      → Finds first asked space_id (ok (some place))
      → Finds second asked space_id (raise lookup_error)
      → Answers first second asked space_id skipped allocated made (raise lookup_error)
  unused_first :
      Finds first asked space_id (ok none)
      → Answers first second asked space_id skipped allocated made (ok none)
  unused_second :
      (place : Place)
      → Finds first asked space_id (ok (some place))
      → Finds second asked space_id (ok none)
      → Answers first second asked space_id skipped allocated made (ok none)
  no_memory :
      (allocated ≡ false) ⊎ (made ≡ false)
      → Answers first second asked space_id skipped allocated made (raise memory_error)
  changed :
      (place place' : Place)
      → Finds first asked space_id (ok (some place))
      → Finds second asked space_id (ok (some place'))
      → (coordinate_count place'.1 place'.0.address ≢ coordinate_count place.1 place.0.address)
        ⊎ (place'.0.root_call_ordinal ≢ place.0.root_call_ordinal)
      → Answers first second asked space_id skipped allocated made (raise runtime_error)
  reads :
      (place place' : Place)
      → Finds first asked space_id (ok (some place))
      → Finds second asked space_id (ok (some place'))
      → coordinate_count place'.1 place'.0.address ≡ coordinate_count place.1 place.0.address
      → place'.0.root_call_ordinal ≡ place.0.root_call_ordinal
      → Answers first second asked space_id skipped allocated made
          (ok (some (drop skipped (coordinates place'.1 place'.0.address))))

module _ (first second : Locked) (asked : Asked) (id skipped : ℕ) (allocated made : Bool) where
  abbrev Answer : Result (Option (List ℕ)) → Type 0
  Answer = Answers first second asked id skipped allocated made

  unchanged :
      (place place' : Place)
      → Finds first asked id (ok (some place))
      → Finds second asked id (ok (some place'))
      → coordinate_count place'.1 place'.0.address ≡ coordinate_count place.1 place.0.address
      → place'.0.root_call_ordinal ≡ place.0.root_call_ordinal
      → let count = coordinate_count place.1 place.0.address in
        Answer (
          guard made memory_error
          >> ok (
              some (
                drop skipped
                  (fill_coordinates (replicate count 0) count place'.1 place'.0.address))))
  unchanged place place' f g counts roots =
      let count = coordinate_count place.1 place.0.address in
      let count' = coordinate_count place'.1 place'.0.address in
      let result = fill_coordinates (replicate count 0) count place'.1 place'.0.address in
      let filled =
        ap (λ (n : ℕ). fill_coordinates (replicate n 0) n place'.1 place'.0.address) (sym counts)
        ∙ fill_coordinates-eq (replicate count' 0) place'.1 place'.0.address
            (length-replicate count' 0) in
      let ends : Bool → Result (Option (List ℕ)) =
        λ b. (guard b memory_error >> ok (some (drop skipped result))) in
      elim (Bool-cases made) [
        | inr refused ↦ subst Answer (sym (ap ends refused)) (no_memory (inr refused))
        | inl given ↦
            subst Answer
              (sym (ap ends given ∙ ap (λ (cs : List ℕ). ok (some (drop skipped cs))) filled))
              (reads place place' f g counts roots)
      ]

  same_place :
      (place place' : Place)
      → Finds first asked id (ok (some place))
      → Finds second asked id (ok (some place'))
      → Answer (
          read_again made
            (coordinate_count place.1 place.0.address)
            place.0.root_call_ordinal
            skipped
            (some place'))
  unfolding read_again
  same_place place place' f g =
      let count = coordinate_count place.1 place.0.address in
      let count' = coordinate_count place'.1 place'.0.address in
      elim (Bool-cases (count' == count)) [
        | inr n ↦ simp n (changed place place' f g (inl (λ e. absurd (ground (arith, n, e)))))
        | inl y ↦ elim (Bool-cases (place'.0.root_call_ordinal == place.0.root_call_ordinal)) [
          | inr n ↦
              simp (y, n) (changed place place' f g (inr (λ e. absurd (ground (arith, n, e)))))
          | inl z ↦
              let counts : count' ≡ count = ground arith in
              let roots : place'.0.root_call_ordinal ≡ place.0.root_call_ordinal = ground arith in
              simp (y, z) (unchanged place place' f g counts roots)
        ]
      ]

  second_place :
      (place : Place)
      → Finds first asked id (ok (some place))
      → (again : Result (Option Place)) → Finds second asked id again
      → Answer (
          again
          >>= read_again made
              (coordinate_count place.1 place.0.address)
              place.0.root_call_ordinal
              skipped)
  unfolding read_again
  second_place place f again (no_thread e) = unknown_second place f (no_thread e)
  second_place place f again (no_space t e u) = unused_second place f (no_space t e u)
  second_place place f again (a_place t space e u) =
      same_place place (space, thread_state_frame t space) f (a_place t space e u)

  first_place :
      (found : Result (Option Place))
      → Finds first asked id found
      → Answer (found >>= read_first allocated made (locate second asked id) skipped)
  unfolding read_first
  first_place found (no_thread e) = unknown_first (no_thread e)
  first_place found (no_space t e u) = unused_first (no_space t e u)
  first_place found (a_place t space e u) =
      let place : Place = (space, thread_state_frame t space) in
      let count = coordinate_count place.1 place.0.address in
      elim (Bool-cases ((count == 0) || allocated)) [
        | inl y ↦ simp y (
            second_place place (a_place t space e u) (locate second asked id)
              (locate-Finds second asked id))
        | inr n ↦ simp n (no_memory (inl (ground (arith, n))))
      ]

  -- Reading the coordinates of a thread, whose frames may change between the two times that the
  -- lock is held, ends in one of these ways: a lookup error if the thread is unknown at one of
  -- them; None if it has not been in the space at one of them; a memory error if memory is
  -- refused; a runtime error if the number of coordinates or the root call ordinal differs; and
  -- else the coordinates at the second time, without those that are dropped.
  pub coordinates_locked-Answers :
      Answers first second asked id skipped allocated made
        (coordinates_locked allocated made first second asked id skipped)
  unfolding coordinates_locked
  coordinates_locked-Answers = first_place (locate first asked id) (locate-Finds first asked id)
