-- ===== src/Callbacks/CallAt/Arm.antt =====
-- Arming a call_at replaces the one of its space.
use retrace_cpython.Base.{
  ℕ, ◌≡◌, ◌≢◌, refl, sym, ◌∙◌, ap, arith, ◌==◌, if◌then◌else◌, ◌⊎◌, Bool, true, false, Option, none,
  some, List, [], ◌∷◌, inl, inr, Bool-cases, ℕ_discrete, Option-cases,
}
use retrace_cpython.Frames.{space_id_root}
use retrace_cpython.Callbacks.{
  CallbackState, Callbacks, Target, find_space_callback_state, new_callback_state, ensure_missing,
  ensure_space_callback_state, write_entry, some_switch, some_armed, switch_of,
  get_thread_switch_callback,
}
use retrace_cpython.Callbacks.Entries.{
  changed, Distinct, another, find-write_entry, write_entry-Distinct, some_switch-write_entry,
}
use retrace_cpython.Callbacks.Sound.{IsCallbacks, armed_of, armed_in}
use retrace_cpython.Callbacks.Switch.{new_switch, new_armed}
use retrace_cpython.Callbacks.CallAt.{put_target, clear_call_at, arm_space, arm_call_at}
use retrace_cpython.Callbacks.CallAt.Clear.{call_at_of, Cleared, clear_call_at-Cleared}

pub record Armed (interp : Callbacks) (s : ℕ) (target : Target) (interp' : Callbacks) : Type 0 where
  pub sound : IsCallbacks interp'
  pub reads : (q : ℕ) → call_at_of interp' q ≡ (if s == q then some target else call_at_of interp q)
  pub switches :
      (q : ℕ) → get_thread_switch_callback interp' q ≡ get_thread_switch_callback interp q

module _ (s : ℕ) (target : Target) (armed : target.armed ≡ true) where
  abbrev place : CallbackState → CallbackState
  place = put_target target

  placed_armed : (o : Option CallbackState) → o ≢ none → armed_of (changed place o) ≡ some target
  placed_armed none n = absurd (n refl)
  placed_armed (some e) n = rw armed refl

  placed_switch : (o : Option CallbackState) → switch_of (changed place o) ≡ switch_of o
  unfolding switch_of
  placed_switch none = refl
  placed_switch (some e) = refl

  some_armed-placed :
      (es : List CallbackState)
      → find_space_callback_state es s ≢ none
      → some_armed (write_entry es s place) ≡ true
  unfolding some_armed write_entry find_space_callback_state
  some_armed-placed [] n = absurd (n refl)
  some_armed-placed (e ∷ es) n = elim (Bool-cases (e.space_id == s)) [
    | inl y ↦ rw (y, armed) refl
    | inr no_match ↦
        let later : find_space_callback_state es s ≢ none = λ z. n (rw (no_match, z) refl) in
        rw (no_match, some_armed-placed es later) (ground arith)
  ]

  -- The entry of the space is there, and the list reads as the cleared callbacks do.
  placed :
      (interp cleared : Callbacks) (es : List CallbackState)
      → Cleared interp s cleared
      → s ≢ space_id_root
      → Distinct es
      → find_space_callback_state es s ≢ none
      → some_switch es ≡ some_switch cleared.space_callbacks
      → ((q : ℕ)
          → switch_of (find_space_callback_state es q) ≡ get_thread_switch_callback cleared q)
      → ((q : ℕ) → armed_of (find_space_callback_state es q) ≡ armed_in cleared q)
      → Armed interp s target
          (record cleared { space_callbacks = write_entry es s place; call_at_extra_armed = true })
  unfolding get_thread_switch_callback
  placed interp cleared es c n d present sw rs ra = record {
    sound = record {
      distinct = write_entry-Distinct s place (λ e. refl) d;
      switch = c.sound.switch ∙ sym sw ∙ sym (some_switch-write_entry es s place (λ e. refl));
      extra = sym (some_armed-placed es present);
    };
    reads = λ q. elim (ℕ_discrete s q) [
      | yes e ↦
          let here : (s == q) ≡ true = ground arith in
          let elsewhere : (q == space_id_root) ≡ false = ground (arith, n, e) in
          rw (elsewhere, find-write_entry s place (λ e. refl) es q, here)
            (placed_armed (find_space_callback_state es q)
              (λ z. present (ap (λ (k : ℕ). find_space_callback_state es k) e ∙ z)))
      | no e ↦
          let there : (s == q) ≡ false = ground arith in
          let before : call_at_of cleared q ≡ call_at_of interp q = c.reads q ∙ rw there refl in
          rw (there, ← before)
            (elim (Bool-cases (q == space_id_root)) [
              | inl r ↦ rw r refl
              | inr r ↦ rw (r, find-write_entry s place (λ e. refl) es q, there) (ra q)
            ])
    ];
    switches = λ q. elim (Bool-cases (s == q)) [
      | inl here ↦
          rw (find-write_entry s place (λ e. refl) es q, here)
            (placed_switch (find_space_callback_state es q) ∙ rs q ∙ c.switches q)
      | inr there ↦ rw (find-write_entry s place (λ e. refl) es q, there) (rs q ∙ c.switches q)
    ];
  }

module _ (interp : Callbacks) (ok : IsCallbacks interp) (s : ℕ) (target : Target)
    (armed : target.armed ≡ true) where
  abbrev cleared : Callbacks
  cleared = clear_call_at interp s

  was_cleared : Cleared interp s cleared
  was_cleared = clear_call_at-Cleared interp ok s

  placed_there :
      {e : CallbackState}
      → s ≢ space_id_root
      → find_space_callback_state cleared.space_callbacks s ≡ some e
      → Armed interp s target (arm_space cleared s target (some cleared.space_callbacks)).0
  unfolding arm_space get_thread_switch_callback
  placed_there n f =
      placed s target armed interp cleared cleared.space_callbacks was_cleared n
        was_cleared.sound.distinct (λ z. ground (arith, f, z)) refl (λ q. refl) (λ q. refl)

  placed_new :
      s ≢ space_id_root
      → find_space_callback_state cleared.space_callbacks s ≡ none
      → Armed interp s target
          (arm_space cleared s target (some (new_callback_state s ∷ cleared.space_callbacks))).0
  unfolding arm_space get_thread_switch_callback some_switch find_space_callback_state
  placed_new n f =
      let here : (s == s) ≡ true = ground arith in
      placed s target armed interp cleared (new_callback_state s ∷ cleared.space_callbacks)
        was_cleared n (another f was_cleared.sound.distinct) (λ z. ground (arith, z, here)) refl
        (new_switch cleared.space_callbacks s f) (new_armed cleared.space_callbacks s f)

  placed_root : s ≡ space_id_root → Armed interp s target (record cleared { root = target })
  unfolding get_thread_switch_callback
  placed_root e = record {
    sound = record {
      distinct = was_cleared.sound.distinct;
      switch = was_cleared.sound.switch;
      extra = was_cleared.sound.extra;
    };
    reads = λ q. elim (ℕ_discrete s q) [
      | yes f ↦
          let here : (s == q) ≡ true = ground arith in
          let at_root : (q == space_id_root) ≡ true = ground (arith, e, f) in
          rw (here, at_root, armed) refl
      | no f ↦
          let there : (s == q) ≡ false = ground arith in
          let elsewhere : (q == space_id_root) ≡ false = ground (arith, e, f) in
          let r = was_cleared.reads q in rw (there, elsewhere) (rw (there, elsewhere) at r)
    ];
    switches = was_cleared.switches;
  }

  -- In callbacks whose entries are for different spaces and whose flags are true, arming a
  -- call_at for a space fails only if memory is refused, and then the call_at of the space is
  -- cleared and no other; otherwise the callbacks stay so, the target is the call_at of the
  -- space, every other call_at is as before, and so is every thread switch callback.
  pub arm_call_at-Armed :
      (made : Bool)
      → ((arm_call_at made interp s target ≡ (clear_call_at interp s, false))
          × (made ≡ false)
          × Cleared interp s (clear_call_at interp s))
        ⊎ ((interp' : Callbacks) × (arm_call_at made interp s target ≡ (interp', true))
            × Armed interp s target interp')
  unfolding arm_call_at ensure_space_callback_state ensure_missing arm_space
  arm_call_at-Armed made = elim (ℕ_discrete s space_id_root) [
    | yes e ↦
        let at_root : (s == space_id_root) ≡ true = ground arith in
        inr (_, rw at_root refl, placed_root e)
    | no n ↦
        let elsewhere : (s == space_id_root) ≡ false = ground arith in
        elim (Option-cases (find_space_callback_state cleared.space_callbacks s)) [
          | inr (e, f) ↦ inr (_, rw (elsewhere, f) refl, placed_there n f)
          | inl f ↦ elim (Bool-cases made) [
            | inl given ↦ inr (_, rw (elsewhere, f, given) refl, placed_new n f)
            | inr refused ↦ inl (rw (elsewhere, f, refused) refl, refused, was_cleared)
          ]
        ]
  ]
