-- ===== src/Handoff.antt =====
-- `_retrace.ThreadHandoff`: cpython-overlay/Modules/retracemodule.c, lines 1351 to 1428 and 1487 to 1619.
pub mod Steps
pub mod Entries
pub mod Ready
pub mod Enter
pub mod Wakeup
mod Tests
use retrace_cpython.Base.{
  ℕ, zero, suc, ◌==◌, not, ◌&&◌, ◌||◌, if◌then◌else◌, Bool, true, false, Option, none, some, List,
  [], ◌∷◌,
}

-- A gate is a lock that is born locked; a release opens it, and an acquisition shuts it again.
pub record Entry : Type 0 where
  pub thread_id : ℕ
  pub permit : Bool
  pub waiting : Bool
  pub gate_open : Bool

pub record Handoff : Type 0 where
  pub closed : Bool
  pub entries : List Entry

unfoldable pub find_entry : List Entry → ℕ → Option Entry
find_entry [] thread_id = none
find_entry (entry ∷ entries) thread_id =
    let rest = find_entry entries thread_id in
    if entry.thread_id == thread_id then some entry else rest

-- A change to the entry that `find_entry` returns.
unfoldable pub change_entry : List Entry → ℕ → (Entry → Entry) → List Entry
change_entry [] thread_id change = []
change_entry (entry ∷ entries) thread_id change =
    let rest = change_entry entries thread_id change in
    if entry.thread_id == thread_id then change entry ∷ entries else entry ∷ rest

abbrev pub new_entry : ℕ → Entry
new_entry thread_id = record {
  thread_id = thread_id;
  permit = false;
  waiting = false;
  gate_open = false;
}

unfoldable pub add_if_missing : Bool → List Entry → ℕ → Option Entry → Option (List Entry)
add_if_missing made entries thread_id (some entry) = some entries
add_if_missing made entries thread_id none =
    if made then some (new_entry thread_id ∷ entries) else none

-- `none` is the failure; `made` tells whether the entry and its gate are given.
unfoldable pub get_entry : Bool → List Entry → ℕ → Option (List Entry)
unfolding add_if_missing
get_entry made entries thread_id =
    add_if_missing made entries thread_id (find_entry entries thread_id)

unfoldable pub release_gate : Entry → Entry
release_gate entry = record entry { gate_open = true }

-- One round of the loop of `close_locked`.
unfoldable pub wake_for_close : Entry → Entry
unfolding release_gate
wake_for_close entry = if entry.waiting && not entry.permit then release_gate entry else entry

unfoldable pub wake_all : List Entry → List Entry
unfolding wake_for_close
wake_all [] = []
wake_all (entry ∷ entries) = wake_for_close entry ∷ wake_all entries

unfoldable pub close_locked : Handoff → Handoff
unfolding wake_all
close_locked self =
    if self.closed then self else record { closed = true; entries = wake_all self.entries }

unfoldable pub wake_entry_locked : Entry → Entry
unfolding release_gate
wake_entry_locked entry =
    if not entry.permit && entry.waiting
    then release_gate (record entry { permit = true })
    else record entry { permit = true }

-- Where the wait of a thread stands when it lets go of the lock, and the wait's outcome.
pub data Wait : Type 0 where
  returns parks times_out : Wait

-- The test of the loop, and what follows the loop.
unfoldable pub wait_test : Bool → Entry → Wait × Entry
wait_test closed entry =
    if not closed && not entry.permit
    then (parks, entry)
    else (returns, record entry { waiting = false; permit = false })

-- `wait_entry_locked` up to the first time it lets go of the lock.
unfoldable pub wait_entry_locked : Bool → Entry → Wait × Entry
unfolding wait_test
wait_entry_locked closed entry =
    if entry.permit
    then (returns, record entry { permit = false; waiting = false })
    else wait_test closed (record entry { waiting = true })

-- The two failures of the timed acquisition, once the lock is held again.
unfoldable pub wait_failed : Entry → Wait × Entry
wait_failed entry = (times_out, record entry { waiting = false })

pub data Entered : Type 0 where
  same_thread closed_error no_memory : Entered
  waits : Wait → Entered

unfoldable pub wait_outcome : Bool → Option Entry → Entered
unfolding wait_entry_locked
wait_outcome closed none = no_memory
wait_outcome closed (some entry) = waits ((wait_entry_locked closed entry).0)

-- The wait of the current thread begins.
unfoldable pub begin_wait : Handoff → ℕ → Handoff × Entered
unfolding wait_entry_locked wait_outcome
begin_wait self current = (
  record self {
    entries = change_entry self.entries current (λ e. (wait_entry_locked self.closed e).1);
  },
  wait_outcome self.closed (find_entry self.entries current),
)

unfoldable pub clear_permit : Entry → Entry
clear_permit entry = record entry { permit = false }

-- The permit of the current thread is cleared, the target is woken, and the wait begins.
unfoldable pub transfer : Handoff → ℕ → ℕ → Option (List Entry) → Handoff × Entered
unfolding begin_wait clear_permit wake_entry_locked
transfer self target current none = (self, no_memory)
transfer self target current (some entries) =
    begin_wait
      (record self {
        entries = change_entry (change_entry entries current clear_permit) target wake_entry_locked;
      })
      current

unfoldable pub with_entries : Bool → Handoff → ℕ → ℕ → Option (List Entry) → Handoff × Entered
unfolding transfer get_entry
with_entries current_made self target current none = (self, no_memory)
with_entries current_made self target current (some entries) =
    transfer (record self { entries = entries }) target current
      (get_entry current_made entries current)

-- `to`, with ids that are not 0, up to the first time it lets go of the lock, for good or to wait.
unfoldable pub hand_to : Bool → Bool → Handoff → ℕ → ℕ → Handoff × Entered
unfolding with_entries get_entry
hand_to target_made current_made self target current =
    if self.closed
    then (self, closed_error)
    else if target == current
    then (self, same_thread)
    else with_entries current_made self target current (get_entry target_made self.entries target)
