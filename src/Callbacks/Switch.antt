-- ===== src/Callbacks/Switch.antt =====
-- Setting the thread switch callback of a space changes that callback alone.
use retrace_cpython.Base.{
  ℕ, ◌≡◌, ◌≢◌, refl, sym, ◌∙◌, ap, arith, ◌==◌, if◌then◌else◌, Bool, true, false, Option, none,
  some, List, ◌∷◌, ◌⊎◌, inl, inr, Bool-cases, ℕ_discrete, Option-cases,
}
use retrace_cpython.Callbacks.{
  CallbackState, Callbacks, find_space_callback_state, new_callback_state, ensure_missing,
  write_entry, some_armed, switch_of, set_switch, update_thread_switch_armed, install_switch,
  install_or_fail, entries_if_found, ensure_space_callback_state, set_thread_switch_callback,
  get_thread_switch_callback,
}
use retrace_cpython.Callbacks.Entries.{
  changed, Distinct, another, find-write_entry, write_entry-Distinct, read-prune, prune-Distinct,
  some_armed-prune, some_armed-write_entry,
}
use retrace_cpython.Callbacks.Sound.{IsCallbacks, armed_of, armed_in, switch_blind, armed_blind}

-- Only the callback of the space `s` is another.
pub record Switched (interp : Callbacks) (s : ℕ) (callback : Option ℕ) (interp' : Callbacks)
    : Type 0 where
  pub sound : IsCallbacks interp'
  pub reads :
      (q : ℕ)
      → get_thread_switch_callback interp' q
        ≡ (if s == q then callback else get_thread_switch_callback interp q)
  pub armed : (q : ℕ) → armed_in interp' q ≡ armed_in interp q
  pub root : interp'.root ≡ interp.root

module _ (callback visible : Option ℕ) where
  written_switch :
      (o : Option CallbackState)
      → o ≢ none
      → switch_of (changed (set_switch callback visible) o) ≡ callback
  unfolding switch_of
  written_switch none n = absurd (n refl)
  written_switch (some e) n = refl

  written_armed :
      (o : Option CallbackState) → armed_of (changed (set_switch callback visible) o) ≡ armed_of o
  written_armed none = refl
  written_armed (some e) = refl

module _ (interp : Callbacks) (entries : List CallbackState) (s : ℕ)
    (callback visible : Option ℕ) where
  abbrev write : CallbackState → CallbackState
  write = set_switch callback visible

  write_reads :
      find_space_callback_state entries s ≢ none
      → ((q : ℕ)
          → switch_of (find_space_callback_state entries q) ≡ get_thread_switch_callback interp q)
      → (q : ℕ)
      → switch_of (find_space_callback_state (write_entry entries s write) q)
        ≡ (if s == q then callback else get_thread_switch_callback interp q)
  write_reads present r q = elim (ℕ_discrete s q) [
    | yes e ↦
        let here : (s == q) ≡ true = ground arith in
        rw (find-write_entry s write (λ e. refl) entries q, here)
          (written_switch callback visible (find_space_callback_state entries q)
            (λ z. present (ap (λ (k : ℕ). find_space_callback_state entries k) e ∙ z)))
    | no n ↦
        let there : (s == q) ≡ false = ground arith in
        rw (find-write_entry s write (λ e. refl) entries q, there) (r q)
  ]

  write_armed :
      ((q : ℕ) → armed_of (find_space_callback_state entries q) ≡ armed_in interp q)
      → (q : ℕ)
      → armed_of (find_space_callback_state (write_entry entries s write) q) ≡ armed_in interp q
  write_armed ar q = elim (Bool-cases (s == q)) [
    | inl here ↦
        rw (find-write_entry s write (λ e. refl) entries q, here)
          (written_armed callback visible (find_space_callback_state entries q) ∙ ar q)
    | inr there ↦ rw (find-write_entry s write (λ e. refl) entries q, there) (ar q)
  ]

  installed :
      Distinct entries
      → some_armed entries ≡ interp.call_at_extra_armed
      → find_space_callback_state entries s ≢ none
      → ((q : ℕ)
          → switch_of (find_space_callback_state entries q) ≡ get_thread_switch_callback interp q)
      → ((q : ℕ) → armed_of (find_space_callback_state entries q) ≡ armed_in interp q)
      → Switched interp s callback (install_switch interp entries s callback visible)
  unfolding install_switch update_thread_switch_armed get_thread_switch_callback switch_of
  installed d a present r ar = record {
    sound = record {
      distinct =
          prune-Distinct _ s (write_entry-Distinct s (set_switch callback visible) (λ e. refl) d);
      switch = refl;
      extra =
          sym a
          ∙ sym (some_armed-write_entry entries s (set_switch callback visible) (λ e. refl))
          ∙ sym (some_armed-prune _ s);
    };
    reads = λ q.
        read-prune switch_of switch_blind _ s q
          (write_entry-Distinct s (set_switch callback visible) (λ e. refl) d)
        ∙ write_reads present r q;
    armed = λ q.
        read-prune armed_of armed_blind _ s q
          (write_entry-Distinct s (set_switch callback visible) (λ e. refl) d)
        ∙ write_armed ar q;
    root = refl;
  }

module _ (entries : List CallbackState) (s : ℕ)
    (free : find_space_callback_state entries s ≡ none) where
  with_new :
      (q : ℕ)
      → find_space_callback_state (new_callback_state s ∷ entries) q
        ≡ (if s == q then some (new_callback_state s) else find_space_callback_state entries q)
  unfolding find_space_callback_state
  with_new q = refl

  pub new_switch :
      (q : ℕ)
      → switch_of (find_space_callback_state (new_callback_state s ∷ entries) q)
        ≡ switch_of (find_space_callback_state entries q)
  unfolding switch_of
  new_switch q = elim (ℕ_discrete s q) [
    | yes e ↦
        let here : (s == q) ≡ true = ground arith in
        rw (with_new q, here)
          (ap switch_of (sym free ∙ ap (λ (k : ℕ). find_space_callback_state entries k) e))
    | no n ↦ let there : (s == q) ≡ false = ground arith in rw (with_new q, there) refl
  ]

  pub new_armed :
      (q : ℕ)
      → armed_of (find_space_callback_state (new_callback_state s ∷ entries) q)
        ≡ armed_of (find_space_callback_state entries q)
  new_armed q = elim (ℕ_discrete s q) [
    | yes e ↦
        let here : (s == q) ≡ true = ground arith in
        rw (with_new q, here)
          (ap armed_of (sym free ∙ ap (λ (k : ℕ). find_space_callback_state entries k) e))
    | no n ↦ let there : (s == q) ≡ false = ground arith in rw (with_new q, there) refl
  ]

module _ (interp : Callbacks) (ok : IsCallbacks interp) (s : ℕ) where
  -- The space has an entry.
  installed_there :
      (callback visible : Option ℕ) {e : CallbackState}
      → find_space_callback_state interp.space_callbacks s ≡ some e
      → Switched interp s callback (install_switch interp interp.space_callbacks s callback visible)
  unfolding get_thread_switch_callback
  installed_there callback visible f =
      installed interp interp.space_callbacks s callback visible ok.distinct (sym ok.extra)
        (λ z. ground (arith, f, z)) (λ q. refl) (λ q. refl)

  -- The space gets its first entry.
  installed_new :
      (callback visible : Option ℕ)
      → find_space_callback_state interp.space_callbacks s ≡ none
      → Switched interp s callback
          (install_switch interp (new_callback_state s ∷ interp.space_callbacks) s callback visible)
  unfolding get_thread_switch_callback some_armed
  installed_new callback visible f =
      let here : (s == s) ≡ true = ground arith in
      installed interp (new_callback_state s ∷ interp.space_callbacks) s callback visible
        (another f ok.distinct) (sym ok.extra)
        (λ z. ground (arith, sym (with_new interp.space_callbacks s f s) ∙ z, here))
        (new_switch interp.space_callbacks s f) (new_armed interp.space_callbacks s f)

  nothing_there :
      find_space_callback_state interp.space_callbacks s ≡ none → Switched interp s none interp
  unfolding get_thread_switch_callback switch_of
  nothing_there f = record {
    sound = ok;
    reads = λ q. elim (ℕ_discrete s q) [
      | yes e ↦
          let here : (s == q) ≡ true = ground arith in
          rw here (
            ap switch_of
              (ap (λ (k : ℕ). find_space_callback_state interp.space_callbacks k) (sym e) ∙ f))
      | no n ↦ let there : (s == q) ≡ false = ground arith in rw there refl
    ];
    armed = λ q. refl;
    root = refl;
  }

  -- In callbacks whose entries are for different spaces and whose flags are true, setting the
  -- thread switch callback of a space fails only if memory is refused, and then changes nothing;
  -- otherwise it keeps this so, the callback of the space is the one set, or none, and every
  -- other callback and every call_at is as before.
  pub set_thread_switch_callback-Switched :
      (made : Bool) (callback visible : Option ℕ)
      → ((set_thread_switch_callback made interp s callback visible ≡ (interp, false))
          × (made ≡ false))
        ⊎ ((interp' : Callbacks) × (set_thread_switch_callback made interp s callback visible
              ≡ (interp', true))
            × Switched interp s callback interp')
  unfolding set_thread_switch_callback install_or_fail entries_if_found ensure_space_callback_state
      ensure_missing
  set_thread_switch_callback-Switched made none visible =
      elim (Option-cases (find_space_callback_state interp.space_callbacks s)) [
        | inl f ↦ inr (interp, rw f refl, nothing_there f)
        | inr (e, f) ↦ inr (_, rw f refl, installed_there none visible f)
      ]
  set_thread_switch_callback-Switched made (some callback) visible =
      elim (Option-cases (find_space_callback_state interp.space_callbacks s)) [
        | inr (e, f) ↦ inr (_, rw f refl, installed_there (some callback) visible f)
        | inl f ↦ elim (Bool-cases made) [
          | inl given ↦ inr (_, rw (f, given) refl, installed_new (some callback) visible f)
          | inr refused ↦ inl (rw (f, refused) refl, refused)
        ]
      ]
