-- ===== src/Handoff/Steps.antt =====
-- The threads that use a handoff, as steps between the points at which they hold its lock.
use retrace_cpython.Base.{ℕ, ◌≡◌, ◌==◌, if◌then◌else◌, Bool, true, false, some, []}
use retrace_cpython.Handoff.{
  Entry, Handoff, find_entry, change_entry, close_locked, Wait, returns, parks, times_out,
  wait_test, wait_failed, Entered, same_thread, closed_error, no_memory, waits, hand_to,
}

-- A thread is not in `to`; or it waits for its gate, the lock not held; or it has the gate, or has
-- failed to get it, and the lock is still to be taken.
pub data Phase : Type 0 where
  outside parked acquired failed : Phase

pub record System : Type 0 where
  pub handoff : Handoff
  pub phase : ℕ → Phase

abbrev pub put_phase : (ℕ → Phase) → ℕ → Phase → ℕ → Phase
put_phase phase t p q = if t == q then p else phase q

abbrev pub phase_after : Wait → Phase
phase_after parks = parked
phase_after returns = outside
phase_after times_out = outside

abbrev pub phase_entered : Entered → Phase
phase_entered (waits w) = phase_after w
phase_entered same_thread = outside
phase_entered closed_error = outside
phase_entered no_memory = outside

-- The thread's entry changes, and the thread goes on.
abbrev pub changes : System → ℕ → (Entry → Entry) → Phase → System
changes s t f p = record {
  handoff = record s.handoff { entries = change_entry s.handoff.entries t f };
  phase = put_phase s.phase t p;
}

abbrev pub shut : Entry → Entry
shut e = record e { gate_open = false }

abbrev pub enters : System → ℕ → Handoff × Entered → System
enters s t r = record { handoff = r.0; phase = put_phase s.phase t (phase_entered (r.1)) }

-- A thread enters `to`; takes its gate; fails to, by its timeout or an error; goes on after either;
-- or some thread closes the handoff.
pub data Step : System → System → Type 0 where
  enter :
      {s : System} (t target : ℕ) (target_made current_made : Bool)
      → s.phase t ≡ outside
      → Step s (enters s t (hand_to target_made current_made s.handoff target t))
  take_gate :
      {s : System} (t : ℕ) (e : Entry)
      → s.phase t ≡ parked
      → find_entry s.handoff.entries t ≡ some e
      → e.gate_open ≡ true
      → Step s (changes s t shut acquired)
  fail :
      {s : System} (t : ℕ)
      → s.phase t ≡ parked
      → Step s (record s { phase = put_phase s.phase t failed })
  resume :
      {s : System} (t : ℕ) (e : Entry)
      → s.phase t ≡ acquired
      → find_entry s.handoff.entries t ≡ some e
      → Step s (
          changes s t
            (λ e. (wait_test s.handoff.closed e).1)
            (phase_after ((wait_test s.handoff.closed e).0)))
  give_up :
      {s : System} (t : ℕ)
      → s.phase t ≡ failed
      → Step s (changes s t (λ e. (wait_failed e).1) outside)
  close : {s : System} → Step s (record s { handoff = close_locked s.handoff })

pub data Steps : System → System → Type 0 where
  stays : {s : System} → Steps s s
  more : {s s' s'' : System} → Steps s s' → Step s' s'' → Steps s s''

abbrev pub initial : System
initial = record { handoff = record { closed = false; entries = [] }; phase = λ t. outside }
