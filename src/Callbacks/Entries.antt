-- ===== src/Callbacks/Entries.antt =====
-- What a write to an entry and the removal of an empty one leave to be read.
use retrace_cpython.Base.{
  ℕ, ◌≡◌, refl, sym, ◌∙◌, ap, arith, ◌==◌, if◌then◌else◌, Bool, true, false, Option, none, some,
  List, [], ◌∷◌, inl, inr, Bool-cases, ℕ_discrete,
}
use retrace_cpython.Callbacks.{
  CallbackState, is_some, find_space_callback_state, write_entry, callback_state_empty,
  prune_callback_state, some_switch, some_armed,
}

abbrev pub changed : (CallbackState → CallbackState) → Option CallbackState → Option CallbackState
changed f none = none
changed f (some e) = some (f e)

-- No two entries are for one space.
pub data Distinct : List CallbackState → Type 0 where
  nothing : Distinct []
  another :
      {e : CallbackState} {es : List CallbackState}
      → find_space_callback_state es e.space_id ≡ none
      → Distinct es
      → Distinct (e ∷ es)

module _ (s : ℕ) (write : CallbackState → CallbackState)
    (keeps : (e : CallbackState) → (write e).space_id ≡ e.space_id) where
  pub find-write_entry :
      (es : List CallbackState) (q : ℕ)
      → find_space_callback_state (write_entry es s write) q ≡ (
          if s == q
          then changed write (find_space_callback_state es q)
          else find_space_callback_state es q)
  unfolding find_space_callback_state write_entry
  find-write_entry [] q = ground arith
  find-write_entry (e ∷ es) q = elim (ℕ_discrete e.space_id s) [
    | yes y ↦
        let same : (e.space_id == s) ≡ true = ground arith in
        let same_key : ((write e).space_id == q) ≡ (e.space_id == q) =
          ap (λ (n : ℕ). n == q) (keeps e) in
        let same_test : (s == q) ≡ (e.space_id == q) = ap (λ (n : ℕ). n == q) (sym y) in
        rw (same, same_key, same_test)
          (elim (Bool-cases (e.space_id == q)) [ inl b ↦ rw b refl | inr b ↦ rw b refl ])
    | no n ↦
        let other : (e.space_id == s) ≡ false = ground arith in
        rw other (elim (Bool-cases (e.space_id == q)) [
          | inl b ↦ let apart : (s == q) ≡ false = ground arith in rw (b, apart) refl
          | inr b ↦ rw (b, find-write_entry es q) refl
        ])
  ]

  pub write_entry-Distinct :
      {es : List CallbackState} → Distinct es → Distinct (write_entry es s write)
  unfolding write_entry
  write_entry-Distinct nothing = nothing
  write_entry-Distinct (another {e} {es} free rest) = elim (Bool-cases (e.space_id == s)) [
    | inl y ↦ rw y (another (ap (λ (k : ℕ). find_space_callback_state es k) (keeps e) ∙ free) rest)
    | inr n ↦ rw n (
        another (find-write_entry es e.space_id ∙ still_free (s == e.space_id))
          (write_entry-Distinct rest))
  ]
    where
      still_free :
          (b : Bool)
          → (if b
              then changed write (find_space_callback_state es e.space_id)
              else find_space_callback_state es e.space_id)
            ≡ none
      still_free true = rw free refl
      still_free false = free

-- A reading that does not tell an empty entry from none survives the removal.
module _ {ℓ} {A : Type ℓ} (read : Option CallbackState → A)
    (blind : (e : CallbackState) → callback_state_empty e ≡ true → read (some e) ≡ read none) where
  pub read-prune :
      (es : List CallbackState) (s q : ℕ)
      → Distinct es
      → read (find_space_callback_state (prune_callback_state es s) q)
        ≡ read (find_space_callback_state es q)
  unfolding find_space_callback_state prune_callback_state
  read-prune [] s q d = refl
  read-prune (e ∷ es) s q (another free rest) = elim (Bool-cases (e.space_id == s)) [
    | inl y ↦ elim (Bool-cases (callback_state_empty e)) [
      | inr full ↦ rw (y, full) refl
      | inl empty ↦
          rw (y, empty)
            (elim (ℕ_discrete e.space_id q) [
              | yes f ↦
                  let here : (e.space_id == q) ≡ true = ground arith in
                  rw here (
                    ap read (ap (λ (k : ℕ). find_space_callback_state es k) (sym f) ∙ free)
                    ∙ sym (blind e empty))
              | no f ↦ let there : (e.space_id == q) ≡ false = ground arith in rw there refl
            ])
    ]
    | inr n ↦ rw n (elim (Bool-cases (e.space_id == q)) [
      | inl b ↦ rw b refl
      | inr b ↦ rw b (read-prune es s q rest)
    ])
  ]

tail_missing :
    (e : CallbackState) (es : List CallbackState) (q : ℕ)
    → find_space_callback_state (e ∷ es) q ≡ none
    → ((e.space_id == q) ≡ false) × (find_space_callback_state es q ≡ none)
unfolding find_space_callback_state
tail_missing e es q f = (ground arith, ground arith)

pub empty_parts :
    (e : CallbackState)
    → callback_state_empty e ≡ true
    → (is_some e.thread_switch_callback ≡ false) × (e.call_at.armed ≡ false)
unfolding callback_state_empty
empty_parts e h = (ground arith, ground arith)

prune_missing :
    (es : List CallbackState) (s q : ℕ)
    → find_space_callback_state es q ≡ none
    → find_space_callback_state (prune_callback_state es s) q ≡ none
unfolding find_space_callback_state prune_callback_state
prune_missing [] s q f = refl
prune_missing (e ∷ es) s q f =
    let (other, tail) = tail_missing e es q f in
    elim (Bool-cases (e.space_id == s)) [
      | inl y ↦ elim (Bool-cases (callback_state_empty e)) [
        | inl empty ↦ rw (y, empty) tail
        | inr full ↦ rw (y, full, other) tail
      ]
      | inr n ↦ rw (n, other) (prune_missing es s q tail)
    ]

pub prune-Distinct :
    (es : List CallbackState) (s : ℕ) → Distinct es → Distinct (prune_callback_state es s)
unfolding prune_callback_state
prune-Distinct [] s d = nothing
prune-Distinct (e ∷ es) s (another free rest) = elim (Bool-cases (e.space_id == s)) [
  | inl y ↦ elim (Bool-cases (callback_state_empty e)) [
    | inl empty ↦ rw (y, empty) rest
    | inr full ↦ rw (y, full) (another free rest)
  ]
  | inr n ↦ rw n (another (prune_missing es s e.space_id free) (prune-Distinct es s rest))
]

pub some_switch-prune :
    (es : List CallbackState) (s : ℕ) → some_switch (prune_callback_state es s) ≡ some_switch es
unfolding some_switch prune_callback_state
some_switch-prune [] s = refl
some_switch-prune (e ∷ es) s = elim (Bool-cases (e.space_id == s)) [
  | inl y ↦ elim (Bool-cases (callback_state_empty e)) [
    | inl empty ↦ rw (y, empty, (empty_parts e empty).0) refl
    | inr full ↦ rw (y, full) refl
  ]
  | inr n ↦ rw (n, some_switch-prune es s) refl
]

pub some_armed-prune :
    (es : List CallbackState) (s : ℕ) → some_armed (prune_callback_state es s) ≡ some_armed es
unfolding some_armed prune_callback_state
some_armed-prune [] s = refl
some_armed-prune (e ∷ es) s = elim (Bool-cases (e.space_id == s)) [
  | inl y ↦ elim (Bool-cases (callback_state_empty e)) [
    | inl empty ↦ rw (y, empty, (empty_parts e empty).1) refl
    | inr full ↦ rw (y, full) refl
  ]
  | inr n ↦ rw (n, some_armed-prune es s) refl
]

-- A write that leaves alone whether the call_at is armed.
pub some_armed-write_entry :
    (es : List CallbackState) (s : ℕ) (write : CallbackState → CallbackState)
    → ((e : CallbackState) → (write e).call_at.armed ≡ e.call_at.armed)
    → some_armed (write_entry es s write) ≡ some_armed es
unfolding some_armed write_entry
some_armed-write_entry [] s write k = refl
some_armed-write_entry (e ∷ es) s write k = elim (Bool-cases (e.space_id == s)) [
  | inl y ↦ rw (y, k e) refl
  | inr n ↦ rw (n, some_armed-write_entry es s write k) refl
]

-- A write that leaves the thread switch callback alone.
pub some_switch-write_entry :
    (es : List CallbackState) (s : ℕ) (write : CallbackState → CallbackState)
    → ((e : CallbackState) → (write e).thread_switch_callback ≡ e.thread_switch_callback)
    → some_switch (write_entry es s write) ≡ some_switch es
unfolding some_switch write_entry
some_switch-write_entry [] s write k = refl
some_switch-write_entry (e ∷ es) s write k = elim (Bool-cases (e.space_id == s)) [
  | inl y ↦ rw (y, k e) refl
  | inr n ↦ rw (n, some_switch-write_entry es s write k) refl
]
