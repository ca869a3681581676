-- ===== src/Callbacks/CallAt/Clear.antt =====
-- Clearing the call_at of a space keeps the flags true, and every other call_at and callback.
use retrace_cpython.Base.{
  ℕ, ◌≡◌, ◌≢◌, refl, sym, ◌∙◌, ap, arith, ◌==◌, if◌then◌else◌, true, false, Option, none, some, inl,
  inr, Bool-cases, ℕ_discrete, Option-cases,
}
use retrace_cpython.Frames.{space_id_root}
use retrace_cpython.Callbacks.{
  CallbackState, Callbacks, Target, no_target, find_space_callback_state, write_entry, switch_of,
  update_call_at_extra_armed, get_thread_switch_callback,
}
use retrace_cpython.Callbacks.Entries.{
  changed, find-write_entry, write_entry-Distinct, read-prune, prune-Distinct, some_switch-prune,
  some_armed-prune, some_switch-write_entry,
}
use retrace_cpython.Callbacks.Sound.{IsCallbacks, armed_of, armed_in, switch_blind, armed_blind}
use retrace_cpython.Callbacks.CallAt.{
  put_target, clear_root_call_at, clear_space_call_at, clear_call_at,
}

-- The call_at of a space; the root's does not stand in the list.
abbrev pub call_at_of : Callbacks → ℕ → Option Target
call_at_of interp s =
    if s == space_id_root
    then (if interp.root.armed then some interp.root else none)
    else armed_in interp s

pub record Cleared (interp : Callbacks) (s : ℕ) (interp' : Callbacks) : Type 0 where
  pub sound : IsCallbacks interp'
  pub reads : (q : ℕ) → call_at_of interp' q ≡ (if s == q then none else call_at_of interp q)
  pub switches :
      (q : ℕ) → get_thread_switch_callback interp' q ≡ get_thread_switch_callback interp q

module _ (interp : Callbacks) (ok : IsCallbacks interp) (s : ℕ) where
  abbrev erase : CallbackState → CallbackState
  erase = put_target no_target

  erased_armed : (o : Option CallbackState) → armed_of (changed erase o) ≡ none
  erased_armed none = refl
  erased_armed (some e) = refl

  erased_switch : (o : Option CallbackState) → switch_of (changed erase o) ≡ switch_of o
  unfolding switch_of
  erased_switch none = refl
  erased_switch (some e) = refl

  erased_armed_at :
      (q : ℕ)
      → armed_of (find_space_callback_state (write_entry interp.space_callbacks s erase) q)
        ≡ (if s == q then none else armed_in interp q)
  erased_armed_at q = elim (Bool-cases (s == q)) [
    | inl here ↦
        rw (find-write_entry s erase (λ e. refl) interp.space_callbacks q, here)
          (erased_armed (find_space_callback_state interp.space_callbacks q))
    | inr there ↦ rw (find-write_entry s erase (λ e. refl) interp.space_callbacks q, there) refl
  ]

  erased_switch_at :
      (q : ℕ)
      → switch_of (find_space_callback_state (write_entry interp.space_callbacks s erase) q)
        ≡ get_thread_switch_callback interp q
  unfolding get_thread_switch_callback
  erased_switch_at q = elim (Bool-cases (s == q)) [
    | inl here ↦
        rw (find-write_entry s erase (λ e. refl) interp.space_callbacks q, here)
          (erased_switch (find_space_callback_state interp.space_callbacks q))
    | inr there ↦ rw (find-write_entry s erase (λ e. refl) interp.space_callbacks q, there) refl
  ]

  clear_root-Cleared : s ≡ space_id_root → Cleared interp s (clear_root_call_at interp)
  unfolding clear_root_call_at get_thread_switch_callback
  clear_root-Cleared e = record {
    sound = record { distinct = ok.distinct; switch = ok.switch; extra = ok.extra };
    reads = λ q. ground (arith, e);
    switches = λ q. refl;
  }

  clear_entry-Cleared :
      (e : CallbackState)
      → s ≢ space_id_root
      → Cleared interp s (clear_space_call_at interp s (some e))
  unfolding clear_space_call_at update_call_at_extra_armed get_thread_switch_callback
  clear_entry-Cleared e n =
      let d = write_entry-Distinct s erase (λ e. refl) ok.distinct in
      let after = write_entry interp.space_callbacks s erase in
      record {
        sound = record {
          distinct = prune-Distinct after s d;
          switch =
              ok.switch
              ∙ sym (some_switch-write_entry interp.space_callbacks s erase (λ e. refl))
              ∙ sym (some_switch-prune after s);
          extra = sym (some_armed-prune after s);
        };
        reads = λ q. elim (ℕ_discrete q space_id_root) [
          | yes z ↦
              let at_root : (q == space_id_root) ≡ true = ground arith in
              let apart : (s == q) ≡ false = ground (arith, n, z) in rw (at_root, apart) refl
          | no z ↦
              let elsewhere : (q == space_id_root) ≡ false = ground arith in
              rw elsewhere (read-prune armed_of armed_blind after s q d ∙ erased_armed_at q)
        ];
        switches = λ q. read-prune switch_of switch_blind after s q d ∙ erased_switch_at q;
      }

  clear_nothing-Cleared :
      s ≢ space_id_root
      → find_space_callback_state interp.space_callbacks s ≡ none
      → Cleared interp s interp
  clear_nothing-Cleared n f = record {
    sound = ok;
    reads = λ q. elim (ℕ_discrete s q) [
      | yes e ↦
          let here : (s == q) ≡ true = ground arith in
          let elsewhere : (q == space_id_root) ≡ false = ground (arith, n, e) in
          rw (here, elsewhere)
            (ap armed_of
              (ap (λ (k : ℕ). find_space_callback_state interp.space_callbacks k) (sym e) ∙ f))
      | no e ↦ let there : (s == q) ≡ false = ground arith in rw there refl
    ];
    switches = λ q. refl;
  }

  -- In callbacks whose entries are for different spaces and whose flags are true, clearing the
  -- call_at of a space keeps this so; no call_at of the space is armed then, every other one is
  -- as before, and so is every thread switch callback.
  pub clear_call_at-Cleared : Cleared interp s (clear_call_at interp s)
  unfolding clear_call_at
  clear_call_at-Cleared = elim (ℕ_discrete s space_id_root) [
    | yes e ↦
        let at_root : (s == space_id_root) ≡ true = ground arith in
        rw at_root (clear_root-Cleared e)
    | no n ↦
        let elsewhere : (s == space_id_root) ≡ false = ground arith in
        rw elsewhere (elim (Option-cases (find_space_callback_state interp.space_callbacks s)) [
          | inl f ↦ rw f (clear_nothing-Cleared n f)
          | inr (e, f) ↦ rw f (clear_entry-Cleared e n)
        ])
  ]
