-- ===== src/Spaces/Scopes/Restore.antt =====
-- A call in a space leaves the thread where it was, and uses up a place of the space.
use retrace_cpython.Base.{
  ℕ, ◌≡◌, refl, sym, ◌∙◌, ap, subst, arith, ◌+◌, ◌^◌, ◌<◌, ◌≤◌, true, Option, none, some, List, [],
  ◌∷◌,
}
use retrace_cpython.Frames.{Frame, Space}
use retrace_cpython.Spaces.{
  Scope, ThreadState, Calloc, find_space, space_at, get_thread_space,
  nearest_visible_frame_in_space, current_thread_frame,
}
use retrace_cpython.Spaces.Writes.{holds, root_ordinal, changed, read-write_space, write_space_self}
use retrace_cpython.Spaces.Find.{Distinct, Fresh}
use retrace_cpython.Spaces.Current.{Has, Got, refused, got, get_cases}
use retrace_cpython.Spaces.Scopes.{
  Callable, scope_for, enter_found, set_root_ordinal, final_root_ordinal, write_local_root,
  leave_scope, leave_space, call_and_leave, enter_space, call_with_space_id,
}

-- The scopes of the calls in progress are as before, but for the calls that they counted.
pub data SameScopes : List Scope → List Scope → Type 0 where
  no_scopes : SameScopes [] []
  same_scope :
      {scope : Scope} {scopes scopes' : List Scope} (ordinal : ℕ)
      → scope.local_root_call_ordinal ≤ ordinal
      → SameScopes scopes scopes'
      → SameScopes (scope ∷ scopes) (record scope { local_root_call_ordinal = ordinal } ∷ scopes')

-- What a call in progress relies on: its scopes, and the spaces of the thread.
pub record Kept (t u : ThreadState) : Type 0 where
  pub scopes : SameScopes t.scopes u.scopes
  pub spaces : (a : ℕ) → holds (space_at t.spaces a) ≡ true → holds (space_at u.spaces a) ≡ true

pub SameScopes-head :
    {scope : Scope} {scopes rest : List Scope}
    → SameScopes (scope ∷ scopes) rest
    → (ordinal : ℕ) × (scopes' : List Scope) × (rest
        ≡ record scope { local_root_call_ordinal = ordinal } ∷ scopes')
      × (scope.local_root_call_ordinal ≤ ordinal)
      × SameScopes scopes scopes'
SameScopes-head (same_scope {scopes' = scopes'} ordinal le same) =
    (ordinal, scopes', refl, le, same)

-- The thread after the call in a space that was entered from `v`, given what the callable left.
abbrev pub closed :
    ThreadState → ThreadState → ℕ → Space → List Frame → ℕ → List Scope → ThreadState
closed v w address space parent ordinal scopes = record w {
  spaces =
      write_local_root w.spaces
        (record (scope_for v address space parent) { local_root_call_ordinal = ordinal })
        (some space.address);
  current_space = v.current_space;
  inherited_space_id = v.inherited_space_id;
  call_ordinal_ptr = v.call_ordinal_ptr;
  scopes = scopes;
}

module _ (v w : ThreadState) (address : ℕ) (space : Space) (ordinal : ℕ) (scopes : List Scope) where
  pub leave_space-eq :
      (parent : List Frame)
      → w.scopes
        ≡ record (scope_for v address space parent) { local_root_call_ordinal = ordinal } ∷ scopes
      → leave_space w ≡ closed v w address space parent ordinal scopes
  unfolding leave_space leave_scope scope_for
  leave_space-eq parent e = ap (λ (ls : List Scope). leave_scope w ls) e

  holds-closed :
      (parent : List Frame) (a : ℕ)
      → holds (space_at w.spaces a) ≡ true
      → holds (space_at (closed v w address space parent ordinal scopes).spaces a) ≡ true
  unfolding write_local_root scope_for
  holds-closed [] a h =
      read-write_space space.address
        (set_root_ordinal (
          final_root_ordinal
            (record (scope_for v address space []) { local_root_call_ordinal = ordinal })))
        (λ x. refl) holds (λ x. refl) w.spaces a
      ∙ h
  holds-closed (frame ∷ frames) a h = h

  counted_root :
      (o : Option Space) (n : ℕ)
      → holds o ≡ true
      → root_ordinal (changed (set_root_ordinal n) o) ≡ n
  counted_root none n h = cc
  counted_root (some x) n h = refl

  final_gt :
      space.root_call_ordinal ≤ ordinal
      → space.root_call_ordinal + 1 < 2 ^ 64
      → space.root_call_ordinal
        < final_root_ordinal
            (record (scope_for v address space []) { local_root_call_ordinal = ordinal })
  unfolding final_root_ordinal scope_for
  final_gt le small = ground arith

  closed_used :
      holds (space_at w.spaces space.address) ≡ true
      → space.root_call_ordinal ≤ ordinal
      → space.root_call_ordinal + 1 < 2 ^ 64
      → space.root_call_ordinal
        < root_ordinal (space_at (closed v w address space [] ordinal scopes).spaces space.address)
  unfolding write_local_root scope_for
  closed_used h le small =
      let last =
        final_root_ordinal
          (record (scope_for v address space []) { local_root_call_ordinal = ordinal }) in
      let reads =
        ap root_ordinal
          (write_space_self space.address (set_root_ordinal last) (λ x. refl) w.spaces)
        ∙ counted_root (space_at w.spaces space.address) last h in
      subst (λ (n : ℕ). space.root_call_ordinal < n) (sym reads) (final_gt le small)

-- What a call in a space comes to: the address of its result, and the thread afterwards.
pub data Called (t : ThreadState) (id address : ℕ) (calloc : Calloc) (callable : Callable)
    : ThreadState × Option ℕ → Type 0 where
  call_refused :
      calloc ≡ none → find_space t.spaces id ≡ none → Called t id address calloc callable (t, none)
  called :
      (v u : ThreadState) (space : Space)
      → Has t v id space
      → u.current_space ≡ t.current_space
      → u.inherited_space_id ≡ t.inherited_space_id
      → u.call_ordinal_ptr ≡ t.call_ordinal_ptr
      → Kept t u
      → (nearest_visible_frame_in_space (current_thread_frame v) space.address ≡ []
          → space.root_call_ordinal + 1 < 2 ^ 64
          → space.root_call_ordinal < root_ordinal (space_at u.spaces space.address))
      → Called t id address calloc callable
          (u, (callable (enter_found v address id (some space)).0).1)

-- The callable keeps what the call in progress relies on.
abbrev pub Keeps : Callable → ThreadState → Type 0
Keeps callable entered = Kept entered ((callable entered).0)

module _ (t : ThreadState) (id address : ℕ) (calloc : Calloc) (callable : Callable) where
  finished :
      (v : ThreadState) (space : Space)
      → Has t v id space
      → Keeps callable ((enter_found v address id (some space)).0)
      → Called t id address calloc callable
          (call_and_leave (enter_found v address id (some space)) callable)
  unfolding call_and_leave enter_found scope_for
  finished v space h k =
      let parent = nearest_visible_frame_in_space (current_thread_frame v) space.address in
      let entered = (enter_found v address id (some space)).0 in
      let w = (callable entered).0 in
      let (ordinal, scopes, e, le, same) = SameScopes-head k.scopes in
      let leaves = leave_space-eq v w address space ordinal scopes parent e in
      let used : parent ≡ []
          → space.root_call_ordinal + 1 < 2 ^ 64
          → space.root_call_ordinal
            < root_ordinal
                (space_at (closed v w address space parent ordinal scopes).spaces space.address) =
        λ unseen small.
          subst
            (λ (p : List Frame).
              space.root_call_ordinal
              < root_ordinal
                  (space_at (closed v w address space p ordinal scopes).spaces space.address))
            (sym unseen)
            (closed_used v w address space ordinal scopes
              (k.spaces space.address (ap holds h.there))
              (subst
                (λ (p : List Frame).
                  (scope_for v address space p).local_root_call_ordinal ≤ ordinal)
                unseen le)
              small) in
      subst (λ (u : ThreadState). Called t id address calloc callable (u, (callable entered).1))
        (sym leaves)
        (called v (closed v w address space parent ordinal scopes) space h
          (ap (λ (x : ThreadState). x.current_space) h.same)
          (ap (λ (x : ThreadState). x.inherited_space_id) h.same)
          (ap (λ (x : ThreadState). x.call_ordinal_ptr) h.same)
          (record {
            scopes =
                subst (λ (ls : List Scope). SameScopes ls scopes)
                  (ap (λ (x : ThreadState). x.scopes) h.same) same;
            spaces = λ a there.
                holds-closed v w address space ordinal scopes parent a
                  (k.spaces a (ap holds (h.kept a there) ∙ there));
          })
          used)

-- A call in a space fails with nothing changed if the thread has no such space and memory is
-- refused. Otherwise it returns what the callable returns, an error included, and leaves the
-- current space, the inherited space id and the call counter as they were before, if the
-- callable keeps the scopes of the calls in progress; and if no frame of the space is visible
-- when it is entered, the root call ordinal of the space is then higher, unless it overflows.
pub call_with_space_id-Called :
    (calloc : Calloc) (t : ThreadState) (address id : ℕ) (callable : Callable)
    → Distinct t.spaces
    → Fresh calloc t.spaces
    → Keeps callable ((enter_space calloc t address id).0)
    → Called t id address calloc callable (call_with_space_id calloc t address id callable)
unfolding call_with_space_id enter_space enter_found call_and_leave
call_with_space_id-Called calloc t address id callable d fresh keeps =
    judged (get_thread_space calloc t id) (get_cases t id d calloc fresh) keeps
  where
    judged :
        (found : ThreadState × Option Space)
        → Got t id calloc found
        → Keeps callable ((enter_found found.0 address id found.1).0)
        → Called t id address calloc callable
            (call_and_leave (enter_found found.0 address id found.1) callable)
    judged found (refused e missing) k = call_refused e missing
    judged found (got v space h) k = finished t id address calloc callable v space h k
