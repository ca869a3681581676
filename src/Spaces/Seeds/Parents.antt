-- ===== src/Spaces/Seeds/Parents.antt =====
-- The thread that starts another one: where it runs, and what the new thread's id is made from.
use retrace_cpython.Base.{
  ℕ, ◌≡◌, ◌≢◌, refl, sym, ◌∙◌, ap, subst, arith, ◌==◌, true, false, Option, none, some, List,
}
use retrace_cpython.Frames.{Space, space_id_root}
use retrace_cpython.Mixers.{mix64}
use retrace_cpython.Coordinates.Fill.{coordinates}
use retrace_cpython.Coordinates.Hash.Pairs.{hash_pairs, mix_visible_frame_coordinates-eq}
use retrace_cpython.Threads.Ids.{initial_root_coordinate_hash, mix_bytes, normalize_thread_id}
use retrace_cpython.Spaces.{ThreadState, Calloc, space_at, current_thread_frame}
use retrace_cpython.Spaces.Current.{current_state, resolve_current}
use retrace_cpython.Spaces.Seeds.{
  thread_id_domain, root_thread_id_seed, mix_frames, seed_from, seed_hash, thread_id_seed,
  id_of_space, inherited_id, parent_of,
}

-- The space in which a thread runs.
pub record RunsInSpace (t : ThreadState) (space : Space) : Type 0 where
  pub current : t.current_space ≡ some space.address
  pub there : space_at t.spaces space.address ≡ some space

abbrev pub domain_hash : ℕ
domain_hash = mix_bytes initial_root_coordinate_hash thread_id_domain

-- The seed of a thread that no thread with an id starts.
abbrev pub first_seed : Option (List ℕ) → ℕ
first_seed env = normalize_thread_id (mix64 domain_hash (root_thread_id_seed env))

-- The seed is made from the id of the parent and its coordinates in the space, oldest first.
abbrev pub parent_seed : ThreadState → Space → ℕ
parent_seed parent space = normalize_thread_id (
    hash_pairs (mix64 domain_hash parent.identity.retrace_thread_id)
      (coordinates (current_thread_frame parent) space.address))

-- How a thread at an address is started: its parent, which stays as it is, the space that it
-- inherits and the seed of its id.
pub data Starts (env : Option (List ℕ)) (child : ThreadState)
    : Option ThreadState → Option ThreadState → ℕ → ℕ → Type 0 where
  without_parent : Starts env child none none space_id_root (first_seed env)
  own_parent :
      {parent : ThreadState}
      → parent.identity.address ≡ child.identity.address
      → Starts env child (some parent) none space_id_root (first_seed env)
  by_unnamed :
      {parent : ThreadState} {space : Space}
      → parent.identity.address ≢ child.identity.address
      → RunsInSpace parent space
      → parent.identity.retrace_thread_id ≡ 0
      → Starts env child (some parent) (some parent) space.space_id (first_seed env)
  by_parent :
      {parent : ThreadState} {space : Space}
      → parent.identity.address ≢ child.identity.address
      → RunsInSpace parent space
      → parent.identity.retrace_thread_id ≢ 0
      → space.space_id ≡ parent.inherited_space_id
      → Starts env child (some parent) (some parent) space.space_id (parent_seed parent space)

other_parent :
    (child parent : ThreadState)
    → parent.identity.address ≢ child.identity.address
    → parent_of (some parent) child ≡ some parent
unfolding parent_of
other_parent child parent apart =
    let differs : (parent.identity.address == child.identity.address) ≡ false =
      ground (arith, apart) in
    rw differs refl

own_none :
    (child parent : ThreadState)
    → parent.identity.address ≡ child.identity.address
    → parent_of (some parent) child ≡ none
unfolding parent_of
own_none child parent same =
    let here : (parent.identity.address == child.identity.address) ≡ true = ground (arith, same) in
    rw here refl

runs_id :
    {t : ThreadState} {space : Space} → RunsInSpace t space → inherited_id (some t) ≡ space.space_id
unfolding inherited_id
runs_id {t} {space} r = ap id_of_space (current_state t space.address space r.current r.there)

abbrev some_first : ThreadState × ℕ → Option ThreadState × ℕ
some_first found = (some found.0, found.1)

module _ (env : Option (List ℕ)) (calloc : Calloc) (parent : ThreadState) where
  abbrev normalized : Option ThreadState × ℕ → Option ThreadState × ℕ
  normalized result = (result.0, normalize_thread_id result.1)

  unnamed_hash :
      (hash : ℕ)
      → parent.identity.retrace_thread_id ≡ 0
      → seed_hash env calloc (some parent) hash
        ≡ (some parent, mix64 hash (root_thread_id_seed env))
  unfolding seed_hash
  unnamed_hash hash zero =
      let unnamed : (parent.identity.retrace_thread_id == 0) ≡ true = ground (arith, zero) in
      rw unnamed refl

  module _ {space : Space} (r : RunsInSpace parent space)
      (same : space.space_id ≡ parent.inherited_space_id) where
    abbrev mixed : ℕ → ℕ
    mixed hash =
        hash_pairs (mix64 hash parent.identity.retrace_thread_id)
          (coordinates (current_thread_frame parent) space.address)

    mixed_from : (hash : ℕ) → seed_from calloc parent hash ≡ (parent, mixed hash)
    unfolding seed_from mix_frames
    mixed_from hash =
        let start = mix64 hash parent.identity.retrace_thread_id in
        ap
          (λ (found : ThreadState × Option ℕ).
            (found.0, mix_frames start (current_thread_frame found.0) found.1))
          (resolve_current calloc parent space.address space r.current r.there same)
        ∙ ap (λ (n : ℕ). (parent, n))
            (mix_visible_frame_coordinates-eq start (current_thread_frame parent) space.address)

    named_hash :
        (hash : ℕ)
        → parent.identity.retrace_thread_id ≢ 0
        → seed_hash env calloc (some parent) hash ≡ (some parent, mixed hash)
    unfolding seed_hash
    named_hash hash nonzero =
        let named : (parent.identity.retrace_thread_id == 0) ≡ false = ground (arith, nonzero) in
        rw named (ap some_first (mixed_from hash))

-- The code finds this parent, this space and this seed.
abbrev Found : Option (List ℕ) → Calloc → Option ThreadState → Option ThreadState → ℕ → ℕ → Type 0
Found env calloc parent after space_id seed =
    (inherited_id parent ≡ space_id) × (thread_id_seed env calloc parent ≡ (after, seed))

pub Starts-parent :
    {env : Option (List ℕ)} (calloc : Calloc) {child : ThreadState}
    {given after : Option ThreadState} {space_id seed : ℕ}
    → Starts env child given after space_id seed
    → Found env calloc (parent_of given child) after space_id seed
unfolding parent_of inherited_id thread_id_seed seed_hash
Starts-parent calloc without_parent = (refl, refl)
Starts-parent {env} calloc {child} (own_parent {parent} same) =
    subst (λ (o : Option ThreadState). Found env calloc o none space_id_root (first_seed env))
      (sym (own_none child parent same)) (refl, refl)
Starts-parent {env} calloc {child} (by_unnamed {parent} {space} apart r zero) =
    subst
      (λ (o : Option ThreadState). Found env calloc o (some parent) space.space_id (first_seed env))
      (sym (other_parent child parent apart))
      (
        runs_id r,
        ap (normalized env calloc parent) (unnamed_hash env calloc parent domain_hash zero),
      )
Starts-parent {env} calloc {child} (by_parent {parent} {space} apart r nonzero same) =
    subst
      (λ (o : Option ThreadState).
        Found env calloc o (some parent) space.space_id (parent_seed parent space))
      (sym (other_parent child parent apart))
      (
        runs_id r,
        ap (normalized env calloc parent) (named_hash env calloc parent r same domain_hash nonzero),
      )
