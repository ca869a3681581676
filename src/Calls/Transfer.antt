-- ===== src/Calls/Transfer.antt =====
-- `ThreadHandoff` and its method `to` with their arguments: retracemodule.c, lines 1430 to 1485 and 1567
-- to 1619.
use retrace_cpython.Base.{ℕ, ◌==◌, ltb, not, if◌then◌else◌, Bool, false, Option, none, some, []}
use retrace_cpython.Handoff.{
  Handoff, Wait, returns, Entered, same_thread, closed_error, no_memory, waits, hand_to,
}
use retrace_cpython.Calls.{
  value_error, overflow_error, runtime_error, memory_error, Result, ok, raise, ◌>>=◌, ◌>>◌, guard,
  Api, Ssize, nonnegative, negative, u64_from_object,
}

-- A time in the unit of the C API, of which `as_microseconds` is the conversion.
unfoldable pub checked_timeout : (ℕ → ℕ) → ℕ → Ssize → Result (Option ℕ)
checked_timeout as_microseconds timeout_max (negative n) = raise value_error
checked_timeout as_microseconds timeout_max (nonnegative time) =
    guard (not (ltb timeout_max (as_microseconds time))) overflow_error
    >> ok (some (as_microseconds time))

-- The arguments are whether the object and its lock are given. The result is the handoff with its
-- timeout; none is no timeout.
unfoldable pub new_handoff : Bool → Bool → Result (Option ℕ) → Result (Handoff × Option ℕ)
new_handoff object_made lock_made parsed = do
  timeout ← parsed
  guard object_made memory_error
  guard lock_made memory_error
  ok (record { closed = false; entries = [] }, timeout)

-- What the start of the transfer comes to: the wait, or an error.
unfoldable pub entered_result : Handoff × Entered → Handoff × Result Wait
entered_result (self, same_thread) = (self, ok returns)
entered_result (self, closed_error) = (self, raise runtime_error)
entered_result (self, no_memory) = (self, raise memory_error)
entered_result (self, waits wait) = (self, ok wait)

unfoldable pub to_checked : Bool → Bool → Handoff → ℕ → Result ℕ → Handoff × Result Wait
unfolding entered_result hand_to
to_checked target_made current_made self current (raise e) = (self, raise e)
to_checked target_made current_made self current (ok target) =
    entered_result (hand_to target_made current_made self target current)

module _ (api : Api) where
  open api use {Object, is_none}

  unfoldable pub timeout_argument :
      (Object → Result Ssize) → (ℕ → ℕ) → ℕ → Object → Result (Option ℕ)
  unfolding checked_timeout
  timeout_argument from_seconds as_microseconds timeout_max timeout =
      if is_none timeout
      then ok none
      else (from_seconds timeout >>= checked_timeout as_microseconds timeout_max)

  -- `ThreadHandoff(timeout=None)`
  unfoldable pub thread_handoff_new :
      (Object → Result Ssize) → (ℕ → ℕ) → ℕ → Bool → Bool → Object → Result (Handoff × Option ℕ)
  unfolding timeout_argument new_handoff
  thread_handoff_new from_seconds as_microseconds timeout_max object_made lock_made timeout =
      new_handoff object_made lock_made
        (timeout_argument from_seconds as_microseconds timeout_max timeout)

  unfoldable pub to_target : ℕ → Object → Result ℕ
  unfolding u64_from_object
  to_target current target = do
    target_id ← u64_from_object api target
    guard (not (target_id == 0)) value_error
    guard (not (current == 0)) runtime_error
    ok target_id

  -- `to(thread_id)` of a thread with the id `current`, up to the first time it lets go of the lock.
  unfoldable pub thread_handoff_to : Bool → Bool → Handoff → ℕ → Object → Handoff × Result Wait
  unfolding to_checked to_target
  thread_handoff_to target_made current_made self current target =
      to_checked target_made current_made self current (to_target current target)
