-- ===== src/Spaces/Current.antt =====
-- Asking for a space of a thread, and making one current.
use retrace_cpython.Base.{
  ℕ, ◌≡◌, ◌≢◌, refl, ◌∙◌, ap, arith, ◌==◌, if◌then◌else◌, Bool, true, false, Option, none, some, [],
  ◌∷◌, ◌++◌, inl, inr, Option-cases,
}
use retrace_cpython.Frames.{Space, root_counter}
use retrace_cpython.Coordinates.Hash.{space_root_coordinate_hash}
use retrace_cpython.Spaces.{
  ThreadState, Calloc, initialize_space_state, find_space, find_thread_space, space_at,
  append_space, get_or_append, get_thread_space, make_current, set_current_space_by_id,
  resolve_current_space, current_space_state,
}
use retrace_cpython.Spaces.Writes.{holds}
use retrace_cpython.Spaces.Find.{
  Distinct, Fresh, space_at-append, find_space-append, found_space, Distinct-append,
}

-- The thread has the space for the id, and the other spaces and all else as before.
pub record Has (t u : ThreadState) (id : ℕ) (space : Space) : Type 0 where
  pub distinct : Distinct u.spaces
  pub found : find_space u.spaces id ≡ some space
  pub there : space_at u.spaces space.address ≡ some space
  pub others : (q : ℕ) → q ≢ id → find_space u.spaces q ≡ find_space t.spaces q
  pub kept :
      (a : ℕ) → holds (space_at t.spaces a) ≡ true → space_at u.spaces a ≡ space_at t.spaces a
  pub same : u ≡ record t { spaces = u.spaces }

-- What `get_thread_space` comes to.
pub data Got (t : ThreadState) (id : ℕ) (calloc : Calloc)
    : ThreadState × Option Space → Type 0 where
  refused : calloc ≡ none → find_space t.spaces id ≡ none → Got t id calloc (t, none)
  got : (u : ThreadState) (space : Space) → Has t u id space → Got t id calloc (u, some space)

module _ (t : ThreadState) (id : ℕ) (d : Distinct t.spaces) where
  found_before : (space : Space) → find_space t.spaces id ≡ some space → Has t t id space
  found_before space e = record {
    distinct = d;
    found = e;
    there = (found_space id space d e).1;
    others = λ q ne. refl;
    kept = λ a h. refl;
    same = refl;
  }

  abbrev new_space : ℕ → Space
  new_space address =
      initialize_space_state address id (space_root_coordinate_hash t.identity.retrace_thread_id)

  abbrev with_new_space : ℕ → ThreadState
  with_new_space address = record t { spaces = t.spaces ++ new_space address ∷ [] }

  added :
      (address : ℕ)
      → space_at t.spaces address ≡ none
      → find_space t.spaces id ≡ none
      → Has t (with_new_space address) id (new_space address)
  unfolding initialize_space_state
  added address free missing =
      let here : (id == id) ≡ true = ground arith in
      let same_address : (address == address) ≡ true = ground arith in
      record {
        distinct = Distinct-append (new_space address) d free missing;
        found = find_space-append t.spaces (new_space address) id ∙ rw (missing, here) refl;
        there = space_at-append t.spaces (new_space address) address ∙ rw (free, same_address) refl;
        others = λ q ne.
            let other : (id == q) ≡ false = ground arith in
            find_space-append t.spaces (new_space address) q
            ∙ rw other (keeps (find_space t.spaces q));
        kept = λ a h. space_at-append t.spaces (new_space address) a ∙ rw h refl;
        same = refl;
      }
    where
      keeps : (o : Option Space) → (if holds o then o else none) ≡ o
      keeps none = refl
      keeps (some x) = refl

  append_cases :
      (calloc : Calloc)
      → Fresh calloc t.spaces
      → find_space t.spaces id ≡ none
      → Got t id calloc (append_space t id calloc)
  unfolding append_space
  append_cases none fresh missing = refused refl missing
  append_cases (some address) fresh missing =
      got (with_new_space address) (new_space address) (added address fresh missing)

  pub get_cases :
      (calloc : Calloc) → Fresh calloc t.spaces → Got t id calloc (get_thread_space calloc t id)
  unfolding get_thread_space get_or_append find_thread_space
  get_cases calloc fresh = elim (Option-cases (find_space t.spaces id)) [
    | inl missing ↦ rw missing (append_cases calloc fresh missing)
    | inr (space, e) ↦ rw e (got t space (found_before space e))
  ]

pub current_state :
    (t : ThreadState) (address : ℕ) (space : Space)
    → t.current_space ≡ some address
    → space_at t.spaces address ≡ some space
    → current_space_state t t.current_space ≡ some space
unfolding current_space_state
current_state t address space e there = ap (λ (o : Option ℕ). current_space_state t o) e ∙ there

-- A current space with the inherited id is taken as it is.
pub resolve_current :
    (calloc : Calloc) (t : ThreadState) (address : ℕ) (space : Space)
    → t.current_space ≡ some address
    → space_at t.spaces address ≡ some space
    → space.space_id ≡ t.inherited_space_id
    → resolve_current_space calloc t ≡ (t, some address)
unfolding resolve_current_space
resolve_current calloc t address space e there same =
    let here : (space.space_id == t.inherited_space_id) ≡ true = ground arith in
    rw (current_state t address space e there, here) (ap (λ (o : Option ℕ). (t, o)) e)

-- What `set_current_space_by_id` comes to.
pub data Set (t : ThreadState) (id : ℕ) (calloc : Calloc) : ThreadState × Bool → Type 0 where
  set_refused : calloc ≡ none → find_space t.spaces id ≡ none → Set t id calloc (t, false)
  set :
      (v u : ThreadState) (space : Space)
      → Has t v id space
      → u.spaces ≡ v.spaces
      → u.frames ≡ t.frames
      → u.scopes ≡ t.scopes
      → u.call_ordinal_ptr
        ≡ (if space.depth == 0 then some (root_counter space.address) else t.call_ordinal_ptr)
      → (get_thread_space none u id ≡ (u, some space))
      → (resolve_current_space none u ≡ (u, some space.address))
      → Set t id calloc (u, true)

made_current :
    (t : ThreadState) (id : ℕ) (calloc : Calloc)
    → Distinct t.spaces
    → (found : ThreadState × Option Space) → Got t id calloc found
    → Set t id calloc (make_current found.0 id found.1)
unfolding make_current get_thread_space get_or_append find_thread_space
made_current t id calloc d found (refused e missing) = set_refused e missing
made_current t id calloc d found (got v space h) =
    set v (make_current v id (some space)).0 space h refl
      (ap (λ (w : ThreadState). w.frames) h.same) (ap (λ (w : ThreadState). w.scopes) h.same)
      (ap
        (λ (w : ThreadState).
          if space.depth == 0 then some (root_counter space.address) else w.call_ordinal_ptr)
        h.same)
      (rw h.found refl)
      (resolve_current none (make_current v id (some space)).0 space.address space refl h.there
        (found_space id space h.distinct h.found).0)

-- On a thread whose spaces have different addresses and ids, making the space of an id current
-- fails only if the thread has no such space and memory is refused, and then changes nothing;
-- otherwise the thread has one space for the id, every other id finds the space that it found
-- before, the new current space is taken and found again without another allocation, and the
-- call counter is that of the space's root if no frame is active in it.
pub set_current_space_by_id-Set :
    (calloc : Calloc) (t : ThreadState) (id : ℕ)
    → Distinct t.spaces
    → Fresh calloc t.spaces
    → Set t id calloc (set_current_space_by_id calloc t id)
unfolding set_current_space_by_id
set_current_space_by_id-Set calloc t id d fresh =
    made_current t id calloc d (get_thread_space calloc t id) (get_cases t id d calloc fresh)
