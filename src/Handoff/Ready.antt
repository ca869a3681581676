-- ===== src/Handoff/Ready.antt =====
-- When the entry of a thread is ready for the thread to wake up, and the changes that keep it so.
use retrace_cpython.Base.{
  ℕ, ◌≡◌, ◌≢◌, refl, arith, ◌||◌, Bool, true, false, Option, none, some, List, inl, inr, Bool-cases,
}
use retrace_cpython.Handoff.{
  Entry, find_entry, returns, wait_test, wait_entry_locked, wake_entry_locked, wake_for_close,
  clear_permit, release_gate, wait_outcome,
}
use retrace_cpython.Handoff.Entries.{changed, KeepsThread}
use retrace_cpython.Handoff.Steps.{Phase, parked, acquired, phase_after, phase_entered}

pub test-thread : (closed : Bool) → KeepsThread (λ e. (wait_test closed e).1)
unfolding wait_test
test-thread closed e = ground arith

pub wait-thread : (closed : Bool) → KeepsThread (λ e. (wait_entry_locked closed e).1)
unfolding wait_entry_locked wait_test
wait-thread closed e = ground arith

pub wake-thread : KeepsThread wake_entry_locked
unfolding wake_entry_locked release_gate
wake-thread e = ground arith

-- The entry of a thread in a phase.
pub data Ready (closed : Bool) : Phase → Option Entry → Type 0 where
  away : {p : Phase} {o : Option Entry} → p ≢ parked → p ≢ acquired → Ready closed p o
  asleep :
      {e : Entry}
      → e.waiting ≡ true
      → ((e.permit || closed) ≡ true → e.gate_open ≡ true)
      → Ready closed parked (some e)
  holding : {e : Entry} → e.waiting ≡ true → Ready closed acquired (some e)

abbrev pub AllReady : Bool → (ℕ → Phase) → List Entry → Type 0
AllReady closed phase entries = (q : ℕ) → Ready closed (phase q) (find_entry entries q)

-- A change that keeps a waiting entry ready.
abbrev pub Careful : Bool → (Entry → Entry) → Type 0
Careful closed f =
    (e : Entry)
    → e.waiting ≡ true
    → ((f e).waiting ≡ true)
      × (((e.permit || closed) ≡ true → e.gate_open ≡ true)
          → ((f e).permit || closed) ≡ true
          → (f e).gate_open ≡ true)

pub Careful-Ready :
    {closed : Bool} (f : Entry → Entry) {p : Phase} {o : Option Entry}
    → Careful closed f
    → Ready closed p o
    → Ready closed p (changed f o)
Careful-Ready f c (away n m) = away n m
Careful-Ready f c (asleep {e} w g) = let (w', g') = c e w in asleep w' (g' g)
Careful-Ready f c (holding {e} w) = holding ((c e w).0)

pub wake-Careful : (closed : Bool) → Careful closed wake_entry_locked
unfolding wake_entry_locked release_gate
wake-Careful closed e w = (ground arith, λ g c. ground arith)

pub clear-Careful : (closed : Bool) → Careful closed clear_permit
unfolding clear_permit
clear-Careful closed e w = (w, λ g c. ground (arith, g))

pub close-Ready :
    {p : Phase} {o : Option Entry} → Ready false p o → Ready true p (changed wake_for_close o)
unfolding wake_for_close release_gate
close-Ready (away n m) = away n m
close-Ready (asleep {e} w g) = asleep (ground arith) (λ _. ground arith)
close-Ready (holding {e} w) = holding (ground arith)

-- A thread that goes on with the test of its loop parks only without a permit, and on an open handoff.
pub wait_test-Ready :
    (closed : Bool) (e : Entry)
    → e.waiting ≡ true
    → Ready closed (phase_after ((wait_test closed e).0)) (some ((wait_test closed e).1))
unfolding wait_test
wait_test-Ready true e w = away (λ p. ground arith) (λ p. ground arith)
wait_test-Ready false e w = elim (Bool-cases e.permit) [
  | inl has ↦ rw has (away (λ p. ground arith) (λ p. ground arith))
  | inr none_yet ↦ rw none_yet (asleep w (λ c. ground arith))
]

at_once :
    (closed : Bool) (e : Entry)
    → e.permit ≡ true
    → wait_entry_locked closed e ≡ (returns, record e { permit = false; waiting = false })
unfolding wait_entry_locked
at_once closed e has = rw has refl

tests :
    (closed : Bool) (e : Entry)
    → e.permit ≡ false
    → wait_entry_locked closed e ≡ wait_test closed (record e { waiting = true })
unfolding wait_entry_locked
tests closed e none_yet = rw none_yet refl

pub wait_entry-Ready :
    (closed : Bool) (e : Entry)
    → Ready closed
        (phase_after ((wait_entry_locked closed e).0))
        (some ((wait_entry_locked closed e).1))
wait_entry-Ready closed e = elim (Bool-cases e.permit) [
  | inl has ↦ rw (at_once closed e has) (away (λ p. ground arith) (λ p. ground arith))
  | inr none_yet ↦
      rw (tests closed e none_yet) (wait_test-Ready closed (record e { waiting = true }) refl)
]

pub outcome-Ready :
    (closed : Bool) (o : Option Entry)
    → Ready closed
        (phase_entered (wait_outcome closed o))
        (changed (λ e. (wait_entry_locked closed e).1) o)
unfolding wait_outcome
outcome-Ready closed none = away (λ p. ground arith) (λ p. ground arith)
outcome-Ready closed (some e) = wait_entry-Ready closed e

pub missing : {closed : Bool} {p : Phase} → Ready closed p none → (p ≢ parked) × (p ≢ acquired)
missing (away n m) = (n, m)
