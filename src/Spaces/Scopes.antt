-- ===== src/Spaces/Scopes.antt =====
-- A call enters a space and leaves it: cpython-overlay/Modules/retracemodule.c, lines 773 to 910.
pub mod Restore
pub mod Ids
use retrace_cpython.Base.{
  ℕ, ◌+◌, ◌%◌, ◌^◌, ◌==◌, ◌&&◌, ◌||◌, if◌then◌else◌, Bool, true, false, Option, none, some, List,
  [], ◌∷◌,
}
use retrace_cpython.Words.Arith.{add64}
use retrace_cpython.Frames.{
  Frame, Space, Counter, frame_counter, scope_counter, space_id_root, space_id_disabled,
}
use retrace_cpython.Spaces.{
  Scope, ThreadState, Calloc, write_space, get_thread_space, nearest_visible_frame_in_space,
  current_thread_frame,
}

-- The next id wraps around at 2 ^ 32, and then passes over the ids of the root and disabled spaces.
unfoldable pub next_space_id : ℕ → ℕ
next_space_id space_id =
    let next = (space_id + 1) % 2 ^ 32 in
    if (next == space_id_root) || (next == space_id_disabled) then space_id_disabled + 1 else next

-- The id that is allocated, and the one that is next.
unfoldable pub allocate_dynamic_space_id : ℕ → ℕ × ℕ
unfolding next_space_id
allocate_dynamic_space_id next = (next, next_space_id next)

abbrev pub first_dynamic_space_id : ℕ
first_dynamic_space_id = space_id_disabled + 1

-- The scope of a call that finds no frame of the space (none), or else a frame.
unfoldable pub scope_for : ThreadState → ℕ → Space → List Frame → Scope
scope_for tstate address space parent = record {
  address = address;
  previous_space = tstate.current_space;
  previous_space_id = tstate.inherited_space_id;
  previous_call_ordinal_ptr = tstate.call_ordinal_ptr;
  space = some space.address;
  initial_root_call_ordinal = elim parent [ [] ↦ space.root_call_ordinal | _ ↦ 0 ];
  local_root_call_ordinal = elim parent [ [] ↦ space.root_call_ordinal | _ ↦ 0 ];
  use_local_root = elim parent [ [] ↦ true | _ ↦ false ];
  active = true;
}

unfoldable pub ordinal_ptr_for : ℕ → List Frame → Counter
ordinal_ptr_for address [] = scope_counter address
ordinal_ptr_for address (parent ∷ frames) = frame_counter parent.address

unfoldable pub enter_found : ThreadState → ℕ → ℕ → Option Space → ThreadState × Bool
unfolding scope_for ordinal_ptr_for nearest_visible_frame_in_space
enter_found tstate address space_id none = (tstate, false)
enter_found tstate address space_id (some space) =
    let parent = nearest_visible_frame_in_space (current_thread_frame tstate) space.address in
    (
      record tstate {
        scopes = scope_for tstate address space parent ∷ tstate.scopes;
        call_ordinal_ptr = some (ordinal_ptr_for address parent);
        current_space = some space.address;
        inherited_space_id = space_id;
      },
      true,
    )

-- `address` is that of the scope; the result tells whether the call returned 0.
unfoldable pub enter_space : Calloc → ThreadState → ℕ → ℕ → ThreadState × Bool
unfolding enter_found get_thread_space
enter_space calloc tstate address space_id =
    let (found, space) = get_thread_space calloc tstate space_id in
    enter_found found address space_id space

abbrev pub set_root_ordinal : ℕ → Space → Space
set_root_ordinal ordinal space = record space { root_call_ordinal = ordinal }

-- A call that counted no call is one itself.
unfoldable pub final_root_ordinal : Scope → ℕ
final_root_ordinal scope =
    if scope.local_root_call_ordinal == scope.initial_root_call_ordinal
    then add64 scope.local_root_call_ordinal 1
    else scope.local_root_call_ordinal

unfoldable pub write_local_root : List Space → Scope → Option ℕ → List Space
unfolding final_root_ordinal write_space
write_local_root spaces scope none = spaces
write_local_root spaces scope (some space) =
    if scope.use_local_root
    then write_space spaces space (set_root_ordinal (final_root_ordinal scope))
    else spaces

-- The innermost scope is left; it is the one of the call that returns.
unfoldable pub leave_scope : ThreadState → List Scope → ThreadState
unfolding write_local_root
leave_scope tstate [] = tstate
leave_scope tstate (scope ∷ scopes) =
    if scope.active
    then record tstate {
      spaces = write_local_root tstate.spaces scope scope.space;
      current_space = scope.previous_space;
      inherited_space_id = scope.previous_space_id;
      call_ordinal_ptr = scope.previous_call_ordinal_ptr;
      scopes = scopes;
    }
    else record tstate { scopes = scopes }

unfoldable pub leave_space : ThreadState → ThreadState
unfolding leave_scope
leave_space tstate = leave_scope tstate tstate.scopes

-- A Python call: the thread afterwards, and the address of its result, or NULL.
abbrev pub Callable : Type 0
Callable = ThreadState → ThreadState × Option ℕ

unfoldable pub call_and_leave : ThreadState × Bool → Callable → ThreadState × Option ℕ
unfolding leave_space
call_and_leave (entered, false) callable = (entered, none)
call_and_leave (entered, true) callable =
    let (after, result) = callable entered in (leave_space after, result)

unfoldable pub call_with_space_id : Calloc → ThreadState → ℕ → ℕ → Callable → ThreadState × Option ℕ
unfolding call_and_leave enter_space
call_with_space_id calloc tstate address space_id callable =
    call_and_leave (enter_space calloc tstate address space_id) callable

-- `RetraceCallWrapperMode`
pub data CallWrapperMode : Type 0 where
  exclude include space : CallWrapperMode

unfoldable pub wrapper_space_id : CallWrapperMode → ℕ → ℕ
wrapper_space_id exclude space_id = space_id_disabled
wrapper_space_id include space_id = space_id_root
wrapper_space_id space space_id = space_id

unfoldable pub call_wrapper_vectorcall :
    Calloc → ThreadState → ℕ → CallWrapperMode → ℕ → Callable → ThreadState × Option ℕ
unfolding call_with_space_id wrapper_space_id
call_wrapper_vectorcall calloc tstate address mode space_id callable =
    call_with_space_id calloc tstate address (wrapper_space_id mode space_id) callable
