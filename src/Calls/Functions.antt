-- ===== src/Calls/Functions.antt =====
-- The other functions of the module: retracemodule.c, lines 274 to 287, 659 to 761 and 907 to 1181.
use retrace_cpython.Base.{ℕ, if◌then◌else◌, Bool, true, false, Option, none, some, List, [], ◌∷◌}
use retrace_cpython.Frames.{Space, space_id_root, space_id_disabled}
use retrace_cpython.Callbacks.{Callbacks, set_thread_switch_callback, get_thread_switch_callback}
use retrace_cpython.Spaces.{
  ThreadState, Calloc, find_thread_space, nearest_visible_frame_in_space, current_thread_frame,
}
use retrace_cpython.Spaces.Scopes.{
  Callable, allocate_dynamic_space_id, call_with_space_id, CallWrapperMode, exclude, include, space,
}
use retrace_cpython.Instructions.Begin.{
  DeltaReply, delta_error, delta_none, delta_tuple, thread_delta_for,
}
use retrace_cpython.ObjectHash.{has_frame}
use retrace_cpython.Calls.{
  type_error, memory_error, Result, ok, raise, ◌>>=◌, ◌>>◌, guard, Api, space_id_from_object,
  space_id_argument, callback_ref,
}
use retrace_cpython.Calls.CallAt.{armed_or_failed}

unfoldable pub visible_thread : ThreadState → Option Space → Option ℕ
unfolding nearest_visible_frame_in_space current_thread_frame
visible_thread tstate none = none
visible_thread tstate (some found) =
    if has_frame (nearest_visible_frame_in_space (current_thread_frame tstate) found.address)
    then some tstate.identity.address
    else none

unfoldable pub visible_thread_for_space : ThreadState → ℕ → Option ℕ
unfolding visible_thread find_thread_space
visible_thread_for_space tstate space_id = visible_thread tstate (find_thread_space tstate space_id)

unfoldable pub switch_checked :
    Bool → Callbacks → ThreadState → Result (Option ℕ × ℕ) → Callbacks × Result (Unit {0})
unfolding set_thread_switch_callback visible_thread_for_space armed_or_failed
switch_checked made interp tstate (raise e) = (interp, raise e)
switch_checked made interp tstate (ok (callback, space_id)) = armed_or_failed (
    set_thread_switch_callback made interp space_id callback
      (visible_thread_for_space tstate space_id))

-- None or the items of a tuple; an error is one of memory.
unfoldable pub delta_result : ThreadState × DeltaReply → ThreadState × Result (Option (List ℕ))
delta_result (tstate, delta_error) = (tstate, raise memory_error)
delta_result (tstate, delta_none) = (tstate, ok none)
delta_result (tstate, delta_tuple delta) = (tstate, ok (some delta))

unfoldable pub delta_asked : Bool → ThreadState → Result ℕ → ThreadState × Result (Option (List ℕ))
unfolding delta_result thread_delta_for
delta_asked allocated tstate (raise e) = (tstate, raise e)
delta_asked allocated tstate (ok space_id) =
    delta_result (thread_delta_for allocated tstate space_id)

-- What the call in the space returns, NULL with an error of its own included.
unfoldable pub returned : ThreadState × Option ℕ → ThreadState × Result (Option ℕ)
returned (tstate, result) = (tstate, ok result)

module _ (api : Api) where
  open api use {Object, is_callable}

  unfoldable pub switch_arguments : Object → Option Object → Result (Option ℕ × ℕ)
  unfolding callback_ref space_id_argument
  switch_arguments callback space_id_arg = do
    reference ← callback_ref api callback true
    space_id ← space_id_argument api space_id_arg
    ok (reference, space_id)

  -- `set_thread_switch_callback(callback, space_id=None)`
  unfoldable pub py_set_thread_switch_callback :
      Bool → Callbacks → ThreadState → Object → Option Object → Callbacks × Result (Unit {0})
  unfolding switch_checked switch_arguments
  py_set_thread_switch_callback made interp tstate callback space_id_arg =
      switch_checked made interp tstate (switch_arguments callback space_id_arg)

  -- `get_thread_switch_callback(space_id=None)`; none is None.
  unfoldable pub py_get_thread_switch_callback : Callbacks → Option Object → Result (Option ℕ)
  unfolding get_thread_switch_callback space_id_argument
  py_get_thread_switch_callback interp space_id_arg =
      space_id_argument api space_id_arg >>= λ space_id.
      ok (get_thread_switch_callback interp space_id)

  -- `thread_delta(space_id=None)`
  unfoldable pub py_thread_delta :
      Bool → ThreadState → Option Object → ThreadState × Result (Option (List ℕ))
  unfolding delta_asked space_id_argument
  py_thread_delta allocated tstate space_id_arg =
      delta_asked allocated tstate (space_id_argument api space_id_arg)

  -- `RetraceCallWrapper`
  pub record CallWrapper : Type 0 where
    pub callable : Object
    pub mode : CallWrapperMode
    pub space_id : ℕ

  unfoldable pub call_wrapper_new : Bool → Object → CallWrapperMode → ℕ → Result CallWrapper
  call_wrapper_new made callable mode space_id = do
    guard (is_callable callable) type_error
    guard made memory_error
    ok (record { callable = callable; mode = mode; space_id = space_id })

  -- `get` is what the type of the callable binds with, if it does.
  unfoldable pub bind_wrapper :
      Bool → CallWrapper → Option (Object → Result Object) → Option Object → Result CallWrapper
  unfolding call_wrapper_new
  bind_wrapper made self none obj = ok self
  bind_wrapper made self (some get) none = ok self
  bind_wrapper made self (some get) (some obj) =
      get obj >>= λ bound. call_wrapper_new made bound self.mode self.space_id

  unfoldable pub call_wrapper_descr_get :
      Bool
      → (Object → Option (Object → Result Object))
      → CallWrapper
      → Option Object
      → Result CallWrapper
  unfolding bind_wrapper
  call_wrapper_descr_get made tp_descr_get self obj =
      bind_wrapper made self (tp_descr_get self.callable) obj

  unfoldable pub py_exclude : Bool → Object → Result CallWrapper
  unfolding call_wrapper_new
  py_exclude made callable = call_wrapper_new made callable exclude space_id_disabled

  unfoldable pub py_include : Bool → Object → Result CallWrapper
  unfolding call_wrapper_new
  py_include made callable = call_wrapper_new made callable include space_id_root

  unfoldable pub py_wrap_for_space : Bool → List Object → Result CallWrapper
  unfolding call_wrapper_new space_id_from_object
  py_wrap_for_space made [] = raise type_error
  py_wrap_for_space made (a ∷ []) = raise type_error
  py_wrap_for_space made (a ∷ callable ∷ b ∷ rest) = raise type_error
  py_wrap_for_space made (a ∷ callable ∷ []) = do
    space_id ← space_id_from_object api a
    guard (is_callable callable) type_error
    call_wrapper_new made callable space space_id

  -- The space, the callable and its arguments.
  unfoldable pub run_arguments : List Object → Result (ℕ × Object × List Object)
  unfolding space_id_from_object
  run_arguments [] = raise type_error
  run_arguments (a ∷ []) = raise type_error
  run_arguments (a ∷ callable ∷ rest) = do
    space_id ← space_id_from_object api a
    guard (is_callable callable) type_error
    ok (space_id, callable, rest)

  module _ (vectorcall : Object → List Object → Callable) where
    unfoldable pub run_checked :
        Calloc
        → ThreadState
        → ℕ
        → Result (ℕ × Object × List Object)
        → ThreadState × Result (Option ℕ)
    unfolding call_with_space_id returned
    run_checked calloc tstate address (raise e) = (tstate, raise e)
    run_checked calloc tstate address (ok (space_id, callable, rest)) =
        returned (call_with_space_id calloc tstate address space_id (vectorcall callable rest))

    -- `run_in_space(space_id, callable, *args)`
    unfoldable pub py_run_in_space :
        Calloc → ThreadState → ℕ → List Object → ThreadState × Result (Option ℕ)
    unfolding run_checked run_arguments
    py_run_in_space calloc tstate address args =
        run_checked calloc tstate address (run_arguments args)

    -- The counter of space ids goes on even if the space cannot be entered.
    unfoldable pub run_in_new :
        Calloc
        → ThreadState
        → ℕ
        → ℕ
        → Object
        → List Object
        → Bool
        → (ThreadState × Result (Option ℕ)) × ℕ
    unfolding allocate_dynamic_space_id call_with_space_id returned
    run_in_new calloc tstate address next callable rest false = ((tstate, raise type_error), next)
    run_in_new calloc tstate address next callable rest true =
        let (space_id, after) = allocate_dynamic_space_id next in
        (
          returned (call_with_space_id calloc tstate address space_id (vectorcall callable rest)),
          after,
        )

    -- `with_new_coordinates(callable, *args)`; `next` is the counter of space ids.
    unfoldable pub py_with_new_coordinates :
        Calloc → ThreadState → ℕ → ℕ → List Object → (ThreadState × Result (Option ℕ)) × ℕ
    unfolding run_in_new
    py_with_new_coordinates calloc tstate address next [] = ((tstate, raise type_error), next)
    py_with_new_coordinates calloc tstate address next (callable ∷ rest) =
        run_in_new calloc tstate address next callable rest (is_callable callable)
