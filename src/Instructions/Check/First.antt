-- ===== src/Instructions/Check/First.antt =====
-- The walk over the slots ends at the first one that is due.
use retrace_cpython.Base.{
  ℕ, ◌≡◌, refl, sym, ◌∙◌, subst, arith, ◌==◌, not, ◌||◌, Bool, true, false, Option, none, some,
  List, [], ◌∷◌, map, inl, inr, Bool-cases, Option-cases,
}
use retrace_cpython.Frames.{Frame, Space, space_id_root}
use retrace_cpython.Coordinates.{has_array, compare_target_to_frame}
use retrace_cpython.Callbacks.{Target, CallbackState, Callbacks, some_armed}
use retrace_cpython.Callbacks.Sound.{IsCallbacks}
use retrace_cpython.Callbacks.CallAt.{
  callback_for, deliver, clear_slot, clear_call_at, clear_root_call_at, check_space,
  check_coordinates, check_compared, check_call_at_slot,
}
use retrace_cpython.Spaces.{ThreadState, find_thread_space}
use retrace_cpython.Instructions.{Arrays, walk_entries, check_slots}
use retrace_cpython.Instructions.Check.{Due, reached, passed, delivered-Due, Due-delivered}

-- A slot: its space, its call_at, and whether the comparison with it gets its memory.
abbrev pub Slot : Type 0
Slot = ℕ × Target × Bool

abbrev pub slot_of : Arrays → CallbackState → Slot
slot_of arrays entry = (entry.space_id, entry.call_at, arrays.entry entry.space_id)

abbrev pub slots : Arrays → Callbacks → List Slot
slots arrays callbacks =
    (space_id_root, callbacks.root, arrays.root) ∷ map (slot_of arrays) callbacks.space_callbacks

-- A slot that is due for the thread at the frames.
abbrev pub DueIn : ThreadState → List Frame → Slot → ℕ → Type 0
DueIn tstate frames slot callback =
    Due slot.2 tstate.identity.retrace_thread_id frames slot.1 (find_thread_space tstate slot.0)
      callback

-- The callback of the first slot that is due, or none if no slot is.
pub data First (due : Slot → ℕ → Type 0) : List Slot → Option ℕ → Type 0 where
  nothing_due : First due [] none
  first_due :
      {slot : Slot} {rest : List Slot} {callback : ℕ}
      → due slot callback
      → First due (slot ∷ rest) (some callback)
  later_due :
      {slot : Slot} {rest : List Slot} {found : Option ℕ}
      → ((callback : ℕ) → ¬ due slot callback)
      → First due rest found
      → First due (slot ∷ rest) found

module _ (arrays : Arrays) (t : ThreadState) (frames : List Frame) where
  abbrev slot_result : Bool → Callbacks → Slot → Callbacks × Option ℕ
  slot_result is_root callbacks slot =
      check_call_at_slot is_root slot.2 callbacks t.identity.retrace_thread_id frames slot.0 slot.1
        (find_thread_space t slot.0)

  not_due :
      (is_root : Bool) (callbacks : Callbacks) (slot : Slot)
      → (slot_result is_root callbacks slot).1 ≡ none
      → (callback : ℕ) → ¬ DueIn t frames slot callback
  not_due is_root callbacks slot e callback due =
      let f =
        Due-delivered is_root slot.2 callbacks frames slot.0 slot.1 t.identity.retrace_thread_id
          (find_thread_space t slot.0) callback due in
      cc

  walk_entries-First :
      (entries : List CallbackState) (callbacks : Callbacks)
      → First
          (DueIn t frames)
          (map (slot_of arrays) entries)
          (walk_entries arrays entries callbacks t frames).1
  unfolding walk_entries
  walk_entries-First [] callbacks = nothing_due
  walk_entries-First (entry ∷ entries) callbacks =
      let slot : Slot = slot_of arrays entry in
      elim (Option-cases (slot_result false callbacks slot).1) [
        | inl e ↦
            rw (e, walk_entries)
              (later_due (not_due false callbacks slot e)
                (walk_entries-First entries (slot_result false callbacks slot).0))
        | inr (callback, e) ↦
            rw (e, walk_entries)
              (first_due (
                delivered-Due false slot.2 callbacks frames slot.0 slot.1
                  t.identity.retrace_thread_id (find_thread_space t slot.0) callback e))
      ]

-- What the check of the root slot leaves alone.
abbrev KeepsEntries : Callbacks → Callbacks → Type 0
KeepsEntries callbacks after =
    (after.space_callbacks ≡ callbacks.space_callbacks)
    × (after.call_at_extra_armed ≡ callbacks.call_at_extra_armed)

module _ (array : Bool) (callbacks : Callbacks) (frames : List Frame) (target : Target) where
  clear_root-KeepsEntries : KeepsEntries callbacks (clear_call_at callbacks space_id_root)
  unfolding clear_call_at clear_root_call_at
  clear_root-KeepsEntries = (refl, refl)

  deliver-KeepsEntries :
      (o : Option (Option ℕ)) → KeepsEntries callbacks (deliver true callbacks space_id_root o).0
  unfolding deliver clear_slot clear_root_call_at
  deliver-KeepsEntries none = (refl, refl)
  deliver-KeepsEntries (some none) = clear_root-KeepsEntries
  deliver-KeepsEntries (some (some c)) = (refl, refl)

  compared-KeepsEntries :
      (cs : List ℕ) (space : ℕ)
      → KeepsEntries callbacks
          (check_compared true array callbacks frames space_id_root target cs space).0
  unfolding check_compared
  compared-KeepsEntries cs space = elim (Bool-cases (has_array array frames space)) [
    | inl y ↦
        rw y (deliver-KeepsEntries (callback_for target (compare_target_to_frame cs frames space)))
    | inr n ↦ rw n (refl, refl)
  ]

  coordinates-KeepsEntries :
      (given : Option (List ℕ)) (found : Option Space)
      → KeepsEntries callbacks
          (check_coordinates true array callbacks frames space_id_root target given found).0
  unfolding check_coordinates check_space
  coordinates-KeepsEntries none found = clear_root-KeepsEntries
  coordinates-KeepsEntries (some cs) none = clear_root-KeepsEntries
  coordinates-KeepsEntries (some cs) (some space) = elim (Bool-cases space.seen) [
    | inl y ↦ rw y (compared-KeepsEntries cs space.address)
    | inr n ↦ rw n clear_root-KeepsEntries
  ]

  root-KeepsEntries :
      (thread_id : ℕ) (found : Option Space)
      → KeepsEntries callbacks
          (check_call_at_slot true array callbacks thread_id frames space_id_root target found).0
  unfolding check_call_at_slot
  root-KeepsEntries thread_id found =
      elim (Bool-cases (not target.armed || not (target.thread_id == thread_id))) [
        | inl y ↦ rw y (refl, refl)
        | inr n ↦ rw n (coordinates-KeepsEntries target.coordinates found)
      ]

disarmed_head :
    (entry : CallbackState) (entries : List CallbackState)
    → some_armed (entry ∷ entries) ≡ false
    → (entry.call_at.armed ≡ false) × (some_armed entries ≡ false)
unfolding some_armed
disarmed_head entry entries h = (ground (arith, h), ground (arith, h))

not_armed :
    {array : Bool} {thread_id : ℕ} {frames : List Frame} (target : Target) {found : Option Space}
    (callback : ℕ)
    → target.armed ≡ false
    → ¬ Due array thread_id frames target found callback
not_armed target callback h (reached cs space armed thread given here seen room same has) = cc
not_armed target callback h (passed cs space armed thread given here seen room before has) = cc

disarmed-First :
    (arrays : Arrays) (t : ThreadState) (frames : List Frame) (entries : List CallbackState)
    → some_armed entries ≡ false
    → First (DueIn t frames) (map (slot_of arrays) entries) none
disarmed-First arrays t frames [] h = nothing_due
disarmed-First arrays t frames (entry ∷ entries) h =
    let (off, rest) = disarmed_head entry entries h in
    later_due (λ callback. not_armed entry.call_at callback off)
      (disarmed-First arrays t frames entries rest)

-- Of a registry whose flags tell whether anything is armed, the check before an instruction
-- delivers the callback of the first slot that is due (the root slot, then the entries in their
-- order). A slot is due if its target is armed for the thread in a space that it has been in,
-- the comparison gets its memory or needs none, and the target stands at the thread's
-- coordinates and has a callback, or comes before them in the lexicographic order and has an
-- overshoot callback. If the check delivers none, no slot is due.
pub check_slots-First :
    (arrays : Arrays) (callbacks : Callbacks) (t : ThreadState) (frames : List Frame)
    → IsCallbacks callbacks
    → First (DueIn t frames) (slots arrays callbacks) (check_slots arrays callbacks t frames).1
unfolding check_slots
check_slots-First arrays callbacks t frames ok =
    let slot : Slot = (space_id_root, callbacks.root, arrays.root) in
    let result = slot_result arrays t frames true callbacks slot in
    let (entries, extra) =
      root-KeepsEntries arrays.root callbacks frames callbacks.root t.identity.retrace_thread_id
        (find_thread_space t space_id_root) in
    elim (Option-cases result.1) [
      | inr (callback, e) ↦
          rw (e, check_slots)
            (first_due (
              delivered-Due true slot.2 callbacks frames slot.0 slot.1 t.identity.retrace_thread_id
                (find_thread_space t slot.0) callback e))
      | inl e ↦ elim (Bool-cases result.0.call_at_extra_armed) [
        | inl y ↦
            rw (e, check_slots)
              (rw y (
                later_due (not_due arrays t frames true callbacks slot e) (
                  subst
                    (λ (es : List CallbackState).
                      First (DueIn t frames) (map (slot_of arrays) es)
                        (walk_entries arrays result.0.space_callbacks result.0 t frames).1)
                    entries
                    (walk_entries-First arrays t frames result.0.space_callbacks result.0))))
        | inr n ↦
            rw (e, check_slots)
              (rw n (
                later_due (not_due arrays t frames true callbacks slot e) (
                  disarmed-First arrays t frames callbacks.space_callbacks
                    (sym ok.extra ∙ sym extra ∙ n))))
      ]
    ]
