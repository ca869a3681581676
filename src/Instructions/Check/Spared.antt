-- ===== src/Instructions/Check/Spared.antt =====
-- A check that delivers nothing only drops call_at's.
use retrace_cpython.Base.{
  ℕ, ◌≡◌, refl, ◌∙◌, ◌==◌, not, ◌||◌, Bool, true, false, Option, none, some, List, [], ◌∷◌, ◌⊎◌,
  inl, inr, Bool-cases, Option-cases,
}
use retrace_cpython.Frames.{Frame, Space, space_id_root}
use retrace_cpython.Coordinates.{has_array, compare_target_to_frame}
use retrace_cpython.Callbacks.{
  Target, CallbackState, Callbacks, get_thread_switch_callback, find_space_callback_state,
  update_call_at_extra_armed,
}
use retrace_cpython.Callbacks.Sound.{IsCallbacks}
use retrace_cpython.Callbacks.CallAt.{
  callback_for, deliver, clear_root_call_at, clear_space_call_at, clear_call_at, check_compared,
  check_space, check_coordinates, check_call_at_slot,
}
use retrace_cpython.Callbacks.CallAt.Clear.{call_at_of, Cleared, clear_call_at-Cleared}
use retrace_cpython.Spaces.{ThreadState, find_thread_space}
use retrace_cpython.Instructions.{Arrays, walk_entries, check_slots}

-- Every call_at is as it was or dropped, and every thread switch callback is as it was.
pub record Spared (interp after : Callbacks) : Type 0 where
  pub sound : IsCallbacks after
  pub flag : after.thread_switch_armed ≡ interp.thread_switch_armed
  pub reads : (q : ℕ) → (call_at_of after q ≡ call_at_of interp q) ⊎ (call_at_of after q ≡ none)
  pub switches : (q : ℕ) → get_thread_switch_callback after q ≡ get_thread_switch_callback interp q

pub Spared-refl : {interp : Callbacks} → IsCallbacks interp → Spared interp interp
Spared-refl sound = record {
  sound = sound;
  flag = refl;
  reads = λ q. inl refl;
  switches = λ q. refl;
}

Spared-trans : {a b c : Callbacks} → Spared a b → Spared b c → Spared a c
Spared-trans {a} {b} {c} first second = record {
  sound = second.sound;
  flag = second.flag ∙ first.flag;
  reads = λ q. elim (second.reads q) [
    | inr dropped ↦ inr dropped
    | inl kept ↦ elim (first.reads q) [
      | inl before ↦ inl (kept ∙ before)
      | inr dropped ↦ inr (kept ∙ dropped)
    ]
  ];
  switches = λ q. second.switches q ∙ first.switches q;
}

space_flag :
    (interp : Callbacks) (s : ℕ) (o : Option CallbackState)
    → (clear_space_call_at interp s o).thread_switch_armed ≡ interp.thread_switch_armed
unfolding clear_space_call_at update_call_at_extra_armed
space_flag interp s none = refl
space_flag interp s (some entry) = refl

flag_kept :
    (interp : Callbacks) (s : ℕ)
    → (clear_call_at interp s).thread_switch_armed ≡ interp.thread_switch_armed
unfolding clear_call_at clear_root_call_at
flag_kept interp s = elim (Bool-cases (s == space_id_root)) [
  | inl y ↦ rw y refl
  | inr n ↦ rw n (space_flag interp s (find_space_callback_state interp.space_callbacks s))
]

dropping-Spared :
    {interp after : Callbacks} (s : ℕ)
    → after.thread_switch_armed ≡ interp.thread_switch_armed
    → Cleared interp s after
    → Spared interp after
dropping-Spared {interp} {after} s flag c = record {
  sound = c.sound;
  flag = flag;
  reads = λ q. elim (Bool-cases (s == q)) [
    | inl y ↦ inr (c.reads q ∙ (rw y refl))
    | inr n ↦ inl (c.reads q ∙ (rw n refl))
  ];
  switches = c.switches;
}

module _ (is_root array : Bool) (interp : Callbacks) (frames : List Frame) (id : ℕ)
    (target : Target) (sound : IsCallbacks interp) where
  -- The check delivers a callback, or spares the others.
  abbrev Spares : Callbacks × Option ℕ → Type 0
  Spares result = result.1 ≡ none → Spared interp result.0

  dropped-Spared : Spared interp (clear_call_at interp id)
  dropped-Spared = dropping-Spared id (flag_kept interp id) (clear_call_at-Cleared interp sound id)

  deliver-Spares : (o : Option (Option ℕ)) → Spares (deliver is_root interp id o)
  unfolding deliver
  deliver-Spares none h = Spared-refl sound
  deliver-Spares (some none) h = dropped-Spared
  deliver-Spares (some (some callback)) h = absurd (cc)

  compared-Spares :
      (cs : List ℕ) (space : ℕ)
      → Spares (check_compared is_root array interp frames id target cs space)
  unfolding check_compared
  compared-Spares cs space = elim (Bool-cases (has_array array frames space)) [
    | inl y ↦ rw y (deliver-Spares (callback_for target (compare_target_to_frame cs frames space)))
    | inr n ↦ rw n (λ h. Spared-refl sound)
  ]

  coordinates-Spares :
      (given : Option (List ℕ)) (found : Option Space)
      → Spares (check_coordinates is_root array interp frames id target given found)
  unfolding check_coordinates check_space
  coordinates-Spares none found = λ h. dropped-Spared
  coordinates-Spares (some cs) none = λ h. dropped-Spared
  coordinates-Spares (some cs) (some space) = elim (Bool-cases space.seen) [
    | inl y ↦ rw y (compared-Spares cs space.address)
    | inr n ↦ rw n (λ h. dropped-Spared)
  ]

  slot-Spares :
      (thread_id : ℕ) (found : Option Space)
      → Spares (check_call_at_slot is_root array interp thread_id frames id target found)
  unfolding check_call_at_slot
  slot-Spares thread_id found =
      elim (Bool-cases (not target.armed || not (target.thread_id == thread_id))) [
        | inl y ↦ rw y (λ h. Spared-refl sound)
        | inr n ↦ rw n (coordinates-Spares target.coordinates found)
      ]

module _ (arrays : Arrays) (t : ThreadState) (frames : List Frame) where
  walk_entries-Spares :
      (entries : List CallbackState) (callbacks : Callbacks)
      → IsCallbacks callbacks
      → (walk_entries arrays entries callbacks t frames).1 ≡ none
      → Spared callbacks (walk_entries arrays entries callbacks t frames).0
  unfolding walk_entries
  walk_entries-Spares [] callbacks sound = λ h. Spared-refl sound
  walk_entries-Spares (entry ∷ entries) callbacks sound =
      let result =
        check_call_at_slot false (arrays.entry entry.space_id) callbacks
          t.identity.retrace_thread_id frames entry.space_id entry.call_at
          (find_thread_space t entry.space_id) in
      elim (Option-cases result.1) [
        | inr (callback, e) ↦ rw (e, walk_entries) (λ h. absurd (cc))
        | inl e ↦
            let spared =
              slot-Spares false (arrays.entry entry.space_id) callbacks frames entry.space_id
                entry.call_at sound t.identity.retrace_thread_id
                (find_thread_space t entry.space_id) e in
            rw (e, walk_entries)
              (λ h. Spared-trans spared (walk_entries-Spares entries result.0 spared.sound h))
      ]

  -- A check of all slots that delivers nothing drops at most the call_at's of some spaces.
  pub check_slots-Spares :
      (callbacks : Callbacks)
      → IsCallbacks callbacks
      → (check_slots arrays callbacks t frames).1 ≡ none
      → Spared callbacks (check_slots arrays callbacks t frames).0
  unfolding check_slots
  check_slots-Spares callbacks sound =
      let result =
        check_call_at_slot true arrays.root callbacks t.identity.retrace_thread_id frames
          space_id_root callbacks.root (find_thread_space t space_id_root) in
      elim (Option-cases result.1) [
        | inr (callback, e) ↦ rw (e, check_slots) (λ h. absurd (cc))
        | inl e ↦
            let spared =
              slot-Spares true arrays.root callbacks frames space_id_root callbacks.root sound
                t.identity.retrace_thread_id (find_thread_space t space_id_root) e in
            elim (Bool-cases result.0.call_at_extra_armed) [
              | inl y ↦
                  rw (e, check_slots)
                    (rw y (λ h.
                      Spared-trans spared
                        (walk_entries-Spares result.0.space_callbacks result.0 spared.sound h)))
              | inr n ↦ rw (e, check_slots) (rw n (λ h. spared))
            ]
      ]
