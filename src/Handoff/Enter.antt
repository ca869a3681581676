-- ===== src/Handoff/Enter.antt =====
-- `to` keeps the entries of all threads ready.
use retrace_cpython.Base.{
  ℕ, ◌≡◌, ◌≢◌, refl, sym, ◌∙◌, ap, subst, arith, ◌==◌, Bool, true, false, Option, none, some, List,
  inl, inr, Bool-cases, ℕ_discrete,
}
use retrace_cpython.Handoff.{
  Entry, Handoff, find_entry, change_entry, wait_entry_locked, wake_entry_locked, clear_permit,
  Entered, same_thread, closed_error, add_if_missing, get_entry, wait_outcome, begin_wait, transfer,
  with_entries, hand_to,
}
use retrace_cpython.Handoff.Entries.{changed, KeepsThread, find_entry-change_entry}
use retrace_cpython.Handoff.Steps.{Phase, parked, acquired, put_phase, phase_entered}
use retrace_cpython.Handoff.Ready.{
  Ready, away, AllReady, Careful, Careful-Ready, wake-Careful, clear-Careful, outcome-Ready,
  missing, wait-thread, wake-thread,
}

abbrev OnEntries : Bool → (ℕ → Phase) → Option (List Entry) → Type 0
OnEntries closed phase none = Unit
OnEntries closed phase (some entries) = AllReady closed phase entries

abbrev pub Lands : Bool → (ℕ → Phase) → ℕ → Handoff × Entered → Type 0
Lands closed phase t r = AllReady closed (put_phase phase t (phase_entered (r.1))) r.0.entries

transfer_closed :
    (self : Handoff) (target t : ℕ) (o : Option (List Entry))
    → (transfer self target t o).0.closed ≡ self.closed
unfolding transfer begin_wait
transfer_closed self target t none = refl
transfer_closed self target t (some entries) = refl

with_closed :
    (self : Handoff) (target t : ℕ) (made : Bool) (o : Option (List Entry))
    → (with_entries made self target t o).0.closed ≡ self.closed
unfolding with_entries
with_closed self target t made none = refl
with_closed self target t made (some entries) =
    transfer_closed (record self { entries = entries }) target t (get_entry made entries t)

module _ (target_made current_made : Bool) (self : Handoff) (target t : ℕ) where
  hand_closed :
      self.closed ≡ true → hand_to target_made current_made self target t ≡ (self, closed_error)
  unfolding hand_to
  hand_closed c = rw c refl

  hand_same :
      self.closed ≡ false
      → (target == t) ≡ true
      → hand_to target_made current_made self target t ≡ (self, same_thread)
  unfolding hand_to
  hand_same c same = rw (c, same) refl

  hand_other :
      self.closed ≡ false
      → (target == t) ≡ false
      → hand_to target_made current_made self target t
        ≡ with_entries current_made self target t (get_entry target_made self.entries target)
  unfolding hand_to
  hand_other c other = rw (c, other) refl

module _ {closed : Bool} {phase : ℕ → Phase} where
  pub settle :
      (entries : List Entry) (t : ℕ) {p : Phase}
      → p ≢ parked
      → p ≢ acquired
      → AllReady closed phase entries
      → AllReady closed (put_phase phase t p) entries
  settle entries t n m all q = elim (ℕ_discrete t q) [
    | yes e ↦ let same : (t == q) ≡ true = ground arith in rw same (away n m)
    | no e ↦ let other : (t == q) ≡ false = ground arith in rw other (all q)
  ]

  -- One thread's entry changes and the thread goes to another phase.
  pub moved :
      (entries : List Entry) (t : ℕ) (f : Entry → Entry) (p : Phase)
      → KeepsThread f
      → AllReady closed phase entries
      → Ready closed p (changed f (find_entry entries t))
      → AllReady closed (put_phase phase t p) (change_entry entries t f)
  moved entries t f p k all r q = elim (ℕ_discrete t q) [
    | yes e ↦
        let same : (t == q) ≡ true = ground arith in
        rw (find_entry-change_entry entries t q f k, same)
          (subst (λ (n : ℕ). Ready closed p (changed f (find_entry entries n))) e r)
    | no e ↦
        let other : (t == q) ≡ false = ground arith in
        rw (find_entry-change_entry entries t q f k, other) (all q)
  ]

  -- A careful change of one entry.
  pub cared :
      (entries : List Entry) (t : ℕ) (f : Entry → Entry)
      → KeepsThread f
      → Careful closed f
      → AllReady closed phase entries
      → AllReady closed phase (change_entry entries t f)
  cared entries t f k c all q = elim (ℕ_discrete t q) [
    | yes e ↦
        let same : (t == q) ≡ true = ground arith in
        rw (find_entry-change_entry entries t q f k, same) (Careful-Ready f c (all q))
    | no e ↦
        let other : (t == q) ≡ false = ground arith in
        rw (find_entry-change_entry entries t q f k, other) (all q)
  ]

  begun :
      (self : Handoff) (t : ℕ)
      → self.closed ≡ closed
      → AllReady closed phase self.entries
      → AllReady closed
          (put_phase phase t (phase_entered ((begin_wait self t).1)))
          (begin_wait self t).0.entries
  unfolding begin_wait
  begun self t e all = rw e (
      moved self.entries t (λ e. (wait_entry_locked closed e).1)
        (phase_entered (wait_outcome closed (find_entry self.entries t))) (wait-thread closed) all
        (outcome-Ready closed (find_entry self.entries t)))

  transferred :
      (self : Handoff) (target t : ℕ) (o : Option (List Entry))
      → self.closed ≡ closed
      → AllReady closed phase self.entries
      → OnEntries closed phase o
      → AllReady closed
          (put_phase phase t (phase_entered ((transfer self target t o).1)))
          (transfer self target t o).0.entries
  unfolding transfer
  transferred self target t none e all m =
      settle self.entries t (λ p. ground arith) (λ p. ground arith) all
  transferred self target t (some entries) e all m = begun _ t e (
      cared _ target wake_entry_locked wake-thread (wake-Careful closed)
        (cared entries t clear_permit (λ e. refl) (clear-Careful closed) m))

  -- A thread with no entry is not parked, so that it may get one.
  added :
      (made : Bool) (entries : List Entry) (t : ℕ) (o : Option Entry)
      → o ≡ find_entry entries t
      → AllReady closed phase entries
      → OnEntries closed phase (add_if_missing made entries t o)
  unfolding add_if_missing find_entry
  added made entries t (some e) f all = all
  added false entries t none f all = tt
  added true entries t none f all = λ q. elim (ℕ_discrete t q) [
    | yes e ↦
        let same : (t == q) ≡ true = ground arith in
        let gone =
          missing
            (subst (λ (o : Option Entry). Ready closed (phase q) o) (rw (← e) (sym f)) (all q)) in
        rw same (away (gone.0) (gone.1))
    | no e ↦ let other : (t == q) ≡ false = ground arith in rw other (all q)
  ]

  with-AllReady :
      (made : Bool) (self : Handoff) (target t : ℕ) (o : Option (List Entry))
      → self.closed ≡ closed
      → AllReady closed phase self.entries
      → OnEntries closed phase o
      → AllReady closed
          (put_phase phase t (phase_entered ((with_entries made self target t o).1)))
          (with_entries made self target t o).0.entries
  unfolding with_entries get_entry
  with-AllReady made self target t none e all m =
      settle self.entries t (λ p. ground arith) (λ p. ground arith) all
  with-AllReady made self target t (some entries) e all m =
      transferred (record self { entries = entries }) target t
        (add_if_missing made entries t (find_entry entries t)) e m
        (added made entries t (find_entry entries t) refl m)

  pub handed :
      (target_made current_made : Bool) (self : Handoff) (target t : ℕ)
      → self.closed ≡ closed
      → AllReady closed phase self.entries
      → Lands closed phase t (hand_to target_made current_made self target t)
  unfolding get_entry
  handed target_made current_made self target t e all = elim (Bool-cases self.closed) [
    | inl c ↦
        subst (λ (r : Handoff × Entered). Lands closed phase t r)
          (sym (hand_closed target_made current_made self target t c))
          (settle self.entries t (λ p. ground arith) (λ p. ground arith) all)
    | inr c ↦ elim (Bool-cases (target == t)) [
      | inl same ↦
          subst (λ (r : Handoff × Entered). Lands closed phase t r)
            (sym (hand_same target_made current_made self target t c same))
            (settle self.entries t (λ p. ground arith) (λ p. ground arith) all)
      | inr other ↦
          subst (λ (r : Handoff × Entered). Lands closed phase t r)
            (sym (hand_other target_made current_made self target t c other))
            (with-AllReady current_made self target t
              (add_if_missing target_made self.entries target (find_entry self.entries target)) e
              all (added target_made self.entries target (find_entry self.entries target) refl all))
    ]
  ]

pub kept_closed :
    (target_made current_made : Bool) (self : Handoff) (target t : ℕ)
    → (hand_to target_made current_made self target t).0.closed ≡ self.closed
kept_closed target_made current_made self target t = elim (Bool-cases self.closed) [
  | inl c ↦
      ap (λ (r : Handoff × Entered). r.0.closed)
        (hand_closed target_made current_made self target t c)
  | inr c ↦ elim (Bool-cases (target == t)) [
    | inl same ↦
        ap (λ (r : Handoff × Entered). r.0.closed)
          (hand_same target_made current_made self target t c same)
    | inr other ↦
        ap (λ (r : Handoff × Entered). r.0.closed)
          (hand_other target_made current_made self target t c other)
        ∙ with_closed self target t current_made (get_entry target_made self.entries target)
  ]
]
