-- ===== src/Calls/CallAt/Refused.antt =====
-- What a call of `call_at` comes to: an error leaves the call_at's as they are, except for a memory
-- error of the last step; and what is armed is not in the past.
use retrace_cpython.Base.{
  ℕ, ◌≡◌, ◌≢◌, arith, ◌==◌, sym, subst, true, false, Option, some, List, inl, inr,
}
use retrace_cpython.Frames.{space_id_root}
use retrace_cpython.Callbacks.{Target, Callbacks}
use retrace_cpython.Callbacks.Sound.{IsCallbacks}
use retrace_cpython.Callbacks.CallAt.{clear_call_at, arm_call_at}
use retrace_cpython.Callbacks.CallAt.Clear.{Cleared, clear_call_at-Cleared}
use retrace_cpython.Callbacks.CallAt.Arm.{Armed, arm_call_at-Armed}
use retrace_cpython.Spaces.{ThreadState}
use retrace_cpython.Calls.{PyError, memory_error, Result, ok, raise, Api, find_thread_state}
use retrace_cpython.Calls.CallAt.Parsed.{
  IsPairs, Parsed, failed, clears, requests, parse_call_at-Parsed,
}
use retrace_cpython.Calls.CallAt.Judged.{
  Acceptable, Rejected, Judged, accepted, rejected, check_target-Judged,
}
use retrace_cpython.Calls.CallAt.{
  clear, arm, Request, CallAtMemory, coordinates_of, check_target, armed_or_failed, arm_checked,
  perform, parse_call_at, py_call_at,
}

-- What a call comes to, by what its arguments ask for.
pub data CallAt (memory : CallAtMemory) (threads : List ThreadState) (interp : Callbacks)
    : Result Request → Callbacks × Result (Unit {0}) → Type 0 where
  malformed : (e : PyError) → CallAt memory threads interp (raise e) (interp, raise e)
  cleared :
      (space_id : ℕ) (after : Callbacks)
      → Cleared interp space_id after
      → CallAt memory threads interp (ok (clear space_id)) (after, ok tt)
  refused :
      (space_id : ℕ) (target : Target) (cs : List ℕ) (e : PyError)
      → target.coordinates ≡ some cs
      → Rejected memory.array threads space_id target cs e
      → CallAt memory threads interp (ok (arm space_id target)) (interp, raise e)
  no_entry :
      (space_id : ℕ) (target : Target) (cs : List ℕ) (after : Callbacks)
      → target.coordinates ≡ some cs
      → IsPairs cs
      → Acceptable memory.array threads space_id target cs
      → space_id ≢ space_id_root
      → memory.entry ≡ false
      → Cleared interp space_id after
      → CallAt memory threads interp (ok (arm space_id target)) (after, raise memory_error)
  armed :
      (space_id : ℕ) (target : Target) (cs : List ℕ) (after : Callbacks)
      → target.coordinates ≡ some cs
      → IsPairs cs
      → Acceptable memory.array threads space_id target cs
      → Armed interp space_id target after
      → CallAt memory threads interp (ok (arm space_id target)) (after, ok tt)

module _ (memory : CallAtMemory) (threads : List ThreadState) (interp : Callbacks)
    (sound : IsCallbacks interp) where
  module _ (space_id : ℕ) (target : Target) (cs : List ℕ) (on : target.armed ≡ true)
      (given : target.coordinates ≡ some cs) (pairs : IsPairs cs) where
    -- The root needs no entry.
    elsewhere :
        arm_call_at memory.entry interp space_id target ≡ (clear_call_at interp space_id, false)
        → space_id ≢ space_id_root
    unfolding arm_call_at
    elsewhere run e =
        let at_root : (space_id == space_id_root) ≡ true = ground (arith, e) in
        absurd (ground (arith, at_root, run))

    -- The checks are passed.
    arms :
        Acceptable memory.array threads space_id target cs
        → CallAt memory threads interp
            (ok (arm space_id target))
            (armed_or_failed (arm_call_at memory.entry interp space_id target))
    unfolding armed_or_failed
    arms fit = elim (arm_call_at-Armed interp sound space_id target on memory.entry) [
      | inl (run, missing, was_cleared) ↦ rw run (
          no_entry space_id target cs (clear_call_at interp space_id) given pairs fit
            (elsewhere run) missing was_cleared)
      | inr (after, run, is_armed) ↦
          rw run (armed space_id target cs after given pairs fit is_armed)
    ]

    arms_judged :
        (check : Result (Unit {0}))
        → Judged memory.array threads space_id target cs check
        → CallAt memory threads interp
            (ok (arm space_id target))
            (arm_checked memory.entry interp space_id target check)
    unfolding arm_checked
    arms_judged check (accepted a) = arms a
    arms_judged check (rejected e r) = refused space_id target cs e given r

  performed :
      (request : Result Request)
      → Parsed request
      → CallAt memory threads interp request (perform memory threads interp request)
  unfolding perform
  performed request (failed e) = malformed e
  performed request (clears space_id) =
      cleared space_id (clear_call_at interp space_id) (clear_call_at-Cleared interp sound space_id)
  performed request (requests space_id target cs on given pairs) =
      arms_judged space_id target cs on given pairs _ (
        subst
          (λ (o : Option (List ℕ)). Judged memory.array threads space_id target cs (
            check_target memory.array space_id target (coordinates_of o)
              (find_thread_state threads target.thread_id)))
          (sym given) (check_target-Judged memory.array threads space_id target cs))

  -- On a registry whose flags tell whether anything is armed, call_at does what its arguments
  -- ask for. Malformed arguments raise and change nothing. A request to clear clears the call_at
  -- of its space and leaves the other spaces alone. A target is refused with nothing changed if
  -- its thread is unknown or has not been in the space (a lookup error), if there are
  -- coordinates and no memory to compare them (a memory error), or if it comes before the
  -- thread's coordinates and has no overshoot callback (a value error). Only a target that is
  -- not refused is armed, and the other spaces are left alone; or, in a space other than the
  -- root, its entry is refused memory, and then the call_at of the space is cleared and a memory
  -- error is raised. What is armed is a non-empty sequence of pairs, which the thread has not
  -- passed unless there is an overshoot callback.
  pub py_call_at-CallAt :
      (api : Api) (args : List api.Object)
      → CallAt memory threads interp
          (parse_call_at api memory.tuple args)
          (py_call_at api memory threads interp args)
  unfolding py_call_at
  py_call_at-CallAt api args =
      performed (parse_call_at api memory.tuple args) (parse_call_at-Parsed api memory.tuple args)
