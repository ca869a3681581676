-- ===== src/Instructions/Transparent.antt =====
-- A callback is transparent: the thread is in its space again afterwards.
pub mod Unmoved
pub mod Begin
use retrace_cpython.Base.{
  ℕ, ◌≡◌, refl, sym, ◌∙◌, ap, subst, arith, Bool, true, false, Option, none, some, List, [], ◌∷◌,
  inl, inr, Option-cases,
}
use retrace_cpython.Frames.{Space, space_id_disabled}
use retrace_cpython.Spaces.{
  Scope, ThreadState, Calloc, append_space, get_or_append, get_thread_space, find_thread_space,
  nearest_visible_frame_in_space, current_thread_frame,
}
use retrace_cpython.Spaces.Scopes.{scope_for, enter_space, enter_found, leave_space}
use retrace_cpython.Spaces.Scopes.Restore.{
  SameScopes, no_scopes, same_scope, SameScopes-head, closed, leave_space-eq,
}
use retrace_cpython.Instructions.{
  Interp, Arguments, Reply, Python, Memory, set_active, put_current, enter_callback, leave_callback,
  call_entered, call_transparent_callback, is_none_reply,
}

-- The thread runs no callback, and is where it was.
pub record Transparent (t u : ThreadState) : Type 0 where
  pub inactive : u.thread_callback_active ≡ false
  pub frame : u.thread_callback_frame ≡ none
  pub current : u.current_space ≡ t.current_space
  pub inherited : u.inherited_space_id ≡ t.inherited_space_id
  pub pointer : u.call_ordinal_ptr ≡ t.call_ordinal_ptr
  pub scopes : SameScopes t.scopes u.scopes

-- No scope has counted anything.
pub SameScopes-refl : (scopes : List Scope) → SameScopes scopes scopes
SameScopes-refl [] = no_scopes
SameScopes-refl (scope ∷ scopes) =
    same_scope scope.local_root_call_ordinal (omega arith) (SameScopes-refl scopes)

abbrev with_spaces : ThreadState → List Space → ThreadState
with_spaces t spaces = record t { spaces = spaces }

-- Asking for a space changes at most the spaces.
module _ (t : ThreadState) (id : ℕ) where
  append_same :
      (calloc : Calloc)
      → (append_space t id calloc).0 ≡ with_spaces t (append_space t id calloc).0.spaces
  unfolding append_space
  append_same none = refl
  append_same (some address) = refl

  get_same :
      (calloc : Calloc)
      → (get_thread_space calloc t id).0 ≡ with_spaces t (get_thread_space calloc t id).0.spaces
  unfolding get_thread_space get_or_append
  get_same calloc = elim (Option-cases (find_thread_space t id)) [
    | inl missing ↦ rw missing (append_same calloc)
    | inr (space, e) ↦ rw e refl
  ]

abbrev flagged : Interp → ℕ → ThreadState
flagged interp frame = set_active interp.current true (some frame)

module _ (python : Python) (memory : Memory) (interp : Interp) (frame callback : ℕ)
    (arguments : Arguments) where
  abbrev entered_with : ThreadState → Option Space → Interp × Bool
  entered_with v found =
      let (t, ok) = enter_found v memory.scope space_id_disabled found in (put_current interp t, ok)

  abbrev after : ThreadState → Option Space → Interp
  after v found = (python callback arguments (entered_with v found).0).0

  left_alone :
      (v : ThreadState) (found : Option Space)
      → v ≡ with_spaces (flagged interp frame) v.spaces
      → SameScopes (entered_with v found).0.current.scopes (after v found).current.scopes
      → Transparent interp.current
          (call_entered python callback arguments (entered_with v found)).0.current
  unfolding call_entered enter_found leave_callback scope_for
  left_alone v none same k = record {
    inactive = refl;
    frame = refl;
    current = ap (λ (x : ThreadState). x.current_space) same;
    inherited = ap (λ (x : ThreadState). x.inherited_space_id) same;
    pointer = ap (λ (x : ThreadState). x.call_ordinal_ptr) same;
    scopes =
        subst (λ (ls : List Scope). SameScopes interp.current.scopes ls)
          (sym (ap (λ (x : ThreadState). x.scopes) same)) (SameScopes-refl interp.current.scopes);
  }
  left_alone v (some space) same k =
      let w = (after v (some space)).current in
      let parent = nearest_visible_frame_in_space (current_thread_frame v) space.address in
      let (ordinal, scopes, e, le, kept) = SameScopes-head k in
      let leaves = leave_space-eq v w memory.scope space ordinal scopes parent e in
      record {
        inactive = refl;
        frame = refl;
        current =
            ap (λ (x : ThreadState). x.current_space) leaves
            ∙ ap (λ (x : ThreadState). x.current_space) same;
        inherited =
            ap (λ (x : ThreadState). x.inherited_space_id) leaves
            ∙ ap (λ (x : ThreadState). x.inherited_space_id) same;
        pointer =
            ap (λ (x : ThreadState). x.call_ordinal_ptr) leaves
            ∙ ap (λ (x : ThreadState). x.call_ordinal_ptr) same;
        scopes =
            subst (λ (ls : List Scope). SameScopes interp.current.scopes ls)
              (sym (ap (λ (x : ThreadState). x.scopes) leaves))
              (subst (λ (ls : List Scope). SameScopes ls scopes)
                (ap (λ (x : ThreadState). x.scopes) same) kept);
      }

  -- After the call of a callback that keeps the scopes of the calls in progress, whatever it
  -- returns and even if the disabled space cannot be entered, the thread runs no callback, its
  -- current space, its inherited space id and its call counter are as before, and its scopes are
  -- those from before but for the calls that they counted.
  pub call_transparent_callback-Transparent :
      let entered = (enter_callback memory interp frame).0 in
      SameScopes entered.current.scopes (python callback arguments entered).0.current.scopes
      → Transparent interp.current
          (call_transparent_callback python memory interp frame callback arguments).0.current
  unfolding call_transparent_callback enter_callback enter_space
  call_transparent_callback-Transparent k =
      let found = get_thread_space memory.calloc (flagged interp frame) space_id_disabled in
      left_alone found.0 found.1 (get_same (flagged interp frame) space_id_disabled memory.calloc) k
