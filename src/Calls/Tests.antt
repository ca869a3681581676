-- ===== src/Calls/Tests.antt =====
-- Coordinates that are read, and a call_at that is asked for and refused.
use retrace_cpython.Base.{
  ℕ, ◌≡◌, refl, true, false, none, some, List, [], ◌∷◌, map, Bool, ltb, if◌then◌else◌, ◌^◌, ◌/◌,
  ◌-◌, ◌*◌,
}
use retrace_cpython.Frames.{
  Frame, Space, FrameState, initial_frame_state, root_counter, space_id_root,
}
use retrace_cpython.Callbacks.{Callbacks, no_target, some_switch, some_armed}
use retrace_cpython.Callbacks.Entries.{nothing as no_entries}
use retrace_cpython.Callbacks.Sound.{IsCallbacks}
use retrace_cpython.Spaces.{ThreadState}
use retrace_cpython.Calls.{
  type_error, value_error, overflow_error, Result, ok, raise, Api, Ssize, nonnegative, negative,
}
use retrace_cpython.Calls.Read.{Locked, coordinates_locked, py_coordinates}
use retrace_cpython.Calls.Read.Outcome.{Answers, coordinates_locked-Answers}
use retrace_cpython.Calls.CallAt.{CallAtMemory, parse_call_at, py_call_at}
use retrace_cpython.Calls.Transfer.{thread_handoff_new, thread_handoff_to}
use retrace_cpython.Calls.CallAt.Refused.{CallAt, py_call_at-CallAt}

-- Some Python objects.
data Value : Type 0 where
  nothing : Value
  int : ℕ → Value
  negative_int : Value
  tuple : List ℕ → Value
  function : ℕ → Value

abbrev as_int : Value → Result ℕ
as_int nothing = raise type_error
as_int (int n) = if ltb n (2 ^ 64) then ok n else raise overflow_error
as_int negative_int = raise overflow_error
as_int (tuple ns) = raise type_error
as_int (function address) = raise type_error

abbrev items : Value → Result (List Value)
items nothing = raise type_error
items (int n) = raise type_error
items negative_int = raise type_error
items (tuple ns) = ok (map (λ n. int n) ns)
items (function address) = raise type_error

abbrev is_nothing : Value → Bool
is_nothing nothing = true
is_nothing (int n) = false
is_nothing negative_int = false
is_nothing (tuple ns) = false
is_nothing (function address) = false

abbrev is_function : Value → Bool
is_function nothing = false
is_function (int n) = false
is_function negative_int = false
is_function (tuple ns) = false
is_function (function address) = true

abbrev address : Value → ℕ
address nothing = 1
address (int n) = 2
address negative_int = 3
address (tuple ns) = 4
address (function at) = at

abbrev values : Api
values = record {
  Object = Value;
  is_none = is_nothing;
  is_callable = is_function;
  as_unsigned_long_long = as_int;
  sequence_items = items;
  address_of = address;
}

abbrev running : ℕ → Frame
running ordinal =
    let state : FrameState = record initial_frame_state {
      space = some 90;
      current_call_ordinal = ordinal;
    } in
    record { address = 1; lasti = 40; owned_by_cstack = false; incomplete = false; retrace = state }

abbrev root : Space
root = record {
  address = 90;
  space_id = space_id_root;
  seen = true;
  depth = 1;
  root_call_ordinal = 0;
  last_delta_root_call_ordinal = 0;
  root_coordinate_hash = 5;
}

abbrev thread : List Frame → ThreadState
thread frames = record {
  identity = record {
    address = 9;
    thread_id = 70;
    cpython_thread_ident = 0;
    retrace_thread_id = 7;
  };
  thread_id_object = none;
  spaces = root ∷ [];
  current_space = some 90;
  call_ordinal_ptr = some (root_counter 90);
  inherited_space_id = space_id_root;
  thread_callback_active = false;
  thread_callback_frame = none;
  frames = frames;
  scopes = [];
}

abbrev at_call : ℕ → Locked
at_call ordinal = record {
  threads = thread (running ordinal ∷ []) ∷ [];
  current = thread (running ordinal ∷ []);
}

coordinates_locked-Answers_example :
    Answers
      (at_call 3)
      (at_call 4)
      (some 7)
      0
      1
      true
      true
      (coordinates_locked true true (at_call 3) (at_call 4) (some 7) 0 1)
coordinates_locked-Answers_example =
    coordinates_locked-Answers (at_call 3) (at_call 4) (some 7) 0 1 true true

abbrev nobody : Callbacks
nobody = record {
  thread_switch_armed = false;
  space_callbacks = [];
  call_at_extra_armed = false;
  root = no_target;
}

nobody-IsCallbacks : IsCallbacks nobody
unfolding some_switch some_armed
nobody-IsCallbacks = record { distinct = no_entries; switch = refl; extra = refl }

abbrev memory : CallAtMemory
memory = record { tuple = true; array = true; entry = true }

abbrev threads : List ThreadState
threads = thread (running 3 ∷ []) ∷ []

-- `call_at(7, (40, 4), function)`, which the thread has not reached.
abbrev arguments : List Value
arguments = int 7 ∷ tuple (40 ∷ 4 ∷ []) ∷ function 500 ∷ []

py_call_at-CallAt_example :
    CallAt memory threads nobody
      (parse_call_at values memory.tuple arguments)
      (py_call_at values memory threads nobody arguments)
py_call_at-CallAt_example =
    py_call_at-CallAt memory threads nobody nobody-IsCallbacks values arguments

past_refused :
    (py_call_at values memory threads nobody (int 7 ∷ tuple (40 ∷ 2 ∷ []) ∷ function 500 ∷ [])).1
    ≡ raise value_error
unfolding py_call_at initial_frame_state
past_refused = refl

py_coordinates_dropped :
    py_coordinates values true true (at_call 3) (at_call 4) (int 7) (nonnegative 1) nothing
    ≡ ok (some (4 ∷ []))
unfolding py_coordinates
py_coordinates_dropped = refl

abbrev seconds : Value → Result Ssize
seconds nothing = raise type_error
seconds (int n) = ok (nonnegative (n * 10 ^ 9))
seconds negative_int = ok (negative 1)
seconds (tuple ns) = raise type_error
seconds (function at) = raise type_error

abbrev microseconds : ℕ → ℕ
microseconds time = time / 1000

negative_timeout :
    thread_handoff_new values seconds microseconds (2 ^ 63 - 1) true true negative_int
    ≡ raise value_error
unfolding thread_handoff_new
negative_timeout = refl

two_seconds :
    thread_handoff_new values seconds microseconds (2 ^ 63 - 1) true true (int 2)
    ≡ ok (record { closed = false; entries = [] }, some 2000000)
unfolding thread_handoff_new
two_seconds = refl

to_nobody :
    (thread_handoff_to values true true (record { closed = false; entries = [] }) 7 (int 0)).1
    ≡ raise value_error
unfolding thread_handoff_to
to_nobody = refl
