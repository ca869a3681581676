-- ===== src/Spaces/Seeds/Seeded.antt =====
-- What a new thread gets from the thread that starts it.
use retrace_cpython.Base.{
  ℕ, suc, ◌≡◌, ◌≢◌, refl, sym, subst, ◌∙◌, ap, arith, ◌==◌, true, false, Option, none, some, List,
  [], ◌∷◌, Run, done, ◌>>=◌, ◌⊎◌, inl, inr,
}
use retrace_cpython.Frames.{Space, space_id_root}
use retrace_cpython.Threads.Ids.Laws.{IsThreadId}
use retrace_cpython.Threads.Unique.{Thread, thread_id_is_active, unique_thread_id}
use retrace_cpython.Threads.Unique.Laws.{candidate, Chosen, Unused, unique_thread_id-Chosen}
use retrace_cpython.Spaces.{
  ThreadState, Calloc, initialize_space_state, initialize_thread_state, find_space, space_at,
  get_thread_space, make_current, set_current_space_by_id, current_space_state, has_id,
}
use retrace_cpython.Spaces.Writes.{holds}
use retrace_cpython.Spaces.Find.{Distinct, nothing, another, Fresh, found_space}
use retrace_cpython.Spaces.Current.{Got, refused, got, get_cases}
use retrace_cpython.Spaces.Seeds.Parents.{Starts, Starts-parent}
use retrace_cpython.Spaces.Seeds.{
  parent_of, inherited_id, thread_id_seed, set_root_hash, write_root, with_id, seed_child,
  seed_thread_state,
}

-- The child has an id of the space that no other live thread has, its root space starts with the
-- id as its hash, and it runs in the space that it inherits, unless there was no memory for it.
pub record Seeded (threads : List Thread) (child : Thread) (root space_id seed n : ℕ)
    (calloc : Calloc) (after : ThreadState) : Type 0 where
  pub chosen : Chosen threads child.address space_id seed 0 n after.identity.retrace_thread_id
  pub is_id : IsThreadId space_id after.identity.retrace_thread_id
  pub unused : Unused child.address after.identity.retrace_thread_id threads
  pub inherited : after.inherited_space_id ≡ space_id
  pub root_hash :
      space_at after.spaces root
      ≡ some (initialize_space_state root space_id_root after.identity.retrace_thread_id)
  pub current :
      (has_id (current_space_state after after.current_space) space_id ≡ true)
      ⊎ ((calloc ≡ none) × (space_id ≢ space_id_root))

module _ (threads : List Thread) (identity : Thread) (root space_id id : ℕ) where
  abbrev root_space : Space
  root_space = initialize_space_state root space_id_root id

  -- The child before its space is made current.
  abbrev named : ThreadState
  named =
      let child = initialize_thread_state identity root [] in
      record child {
        identity = with_id child.identity id;
        spaces = write_root child.spaces (set_root_hash id);
        inherited_space_id = space_id;
      }

  one_space : named.spaces ≡ root_space ∷ []
  unfolding initialize_thread_state write_root initialize_space_state
  one_space = refl

  root_there : space_at named.spaces root ≡ some root_space
  unfolding initialize_thread_state write_root initialize_space_state space_at
  root_there = let here : (root == root) ≡ true = ground arith in rw here refl

  named-Distinct : Distinct named.spaces
  unfolding initialize_thread_state write_root space_at find_space
  named-Distinct = another refl refl nothing

  named-Fresh : (calloc : Calloc) → calloc ≢ some root → Fresh calloc named.spaces
  unfolding initialize_thread_state write_root initialize_space_state space_at
  named-Fresh none apart = tt
  named-Fresh (some address) apart =
      let other : (root == address) ≡ false = ground (arith, apart) in rw other refl

  not_root : find_space named.spaces space_id ≡ none → space_id ≢ space_id_root
  unfolding initialize_thread_state write_root initialize_space_state find_space
  not_root missing e = ground (arith, missing, e)

  module _ (seed n : ℕ) (chosen : Chosen threads identity.address space_id seed 0 n id)
      (is_id : IsThreadId space_id id) (unused : Unused identity.address id threads) where
    made-Seeded :
        (calloc : Calloc) (found : ThreadState × Option Space)
        → Got named space_id calloc found
        → Seeded threads identity root space_id seed n calloc
            (make_current found.0 space_id found.1).0
    unfolding make_current current_space_state initialize_thread_state
    made-Seeded calloc found (refused e missing) = record {
      chosen = chosen;
      is_id = is_id;
      unused = unused;
      inherited = refl;
      root_hash = root_there;
      current = inr (e, not_root missing);
    }
    made-Seeded calloc found (got v space h) =
        let same : id ≡ v.identity.retrace_thread_id =
          sym (ap (λ (w : ThreadState). w.identity.retrace_thread_id) h.same) in
        let of_space = (found_space space_id space h.distinct h.found).0 in
        let found_id : (space.space_id == space_id) ≡ true = ground arith in
        record {
          chosen =
              subst (λ (i : ℕ). Chosen threads identity.address space_id seed 0 n i) same chosen;
          is_id = subst (IsThreadId space_id) same is_id;
          unused = subst (λ (n : ℕ). Unused identity.address n threads) same unused;
          inherited = refl;
          root_hash =
              h.kept root (ap holds root_there)
              ∙ root_there
              ∙ ap (λ (n : ℕ). some (initialize_space_state root space_id_root n)) same;
          current = inl (rw h.there found_id);
        }

    child-Seeded :
        (calloc : Calloc)
        → Fresh calloc named.spaces
        → Seeded threads identity root space_id seed n calloc
            (seed_child calloc (initialize_thread_state identity root []) id space_id)
    unfolding seed_child set_current_space_by_id
    child-Seeded calloc fresh =
        made-Seeded calloc (get_thread_space calloc named space_id)
          (get_cases named space_id named-Distinct calloc fresh)

module _ (env : Option (List ℕ)) (parent_calloc : Calloc) (threads : List Thread)
    (identity : Thread) (root : ℕ) where
  abbrev child : ThreadState
  child = initialize_thread_state identity root []

  -- What is left of the seeding once the parent is asked.
  abbrev started_with :
      ℕ → Calloc → ℕ → Option ThreadState × ℕ → Run (Option ThreadState × ThreadState)
  started_with fuel calloc space_id found =
      unique_thread_id fuel threads identity.address space_id found.1 >>= λ id.
      done (found.0, seed_child calloc child id space_id)

  found_parent :
      (fuel : ℕ) (calloc : Calloc) (given : Option ThreadState)
      → seed_thread_state fuel env parent_calloc calloc threads given child
        ≡ started_with fuel calloc
            (inherited_id (parent_of given child))
            (thread_id_seed env parent_calloc (parent_of given child))
  unfolding seed_thread_state initialize_thread_state
  found_parent fuel calloc given = refl

  -- A new thread, started by no thread or by one that runs in one of its spaces, with that
  -- space's id as its inherited one if the thread has an id: if memory for a new space, when
  -- there is any, is not where the root space is, and one of the first n + 1 candidates for its
  -- id is free, seeding it ends and leaves the parent as it is. The new thread gets the first
  -- free candidate, which is an id of the space of its parent (the root space if it has no
  -- parent) and of no other live thread; the candidates start from a seed that is made from the
  -- parent's id and its coordinates in that space, the oldest first, or from the root seed if
  -- the parent is missing or has no id. The new thread inherits the space, its root space starts
  -- with the id as its hash, and the space is its current one, unless it is not the root space
  -- and there is no memory for it.
  pub seed_thread_state-Seeded :
      (calloc : Calloc) (n : ℕ) {given after : Option ThreadState} {space_id seed : ℕ}
      → Starts env (initialize_thread_state identity root []) given after space_id seed
      → calloc ≢ some root
      → thread_id_is_active threads identity.address
          (candidate threads identity.address space_id seed n)
        ≡ false
      → (child' : ThreadState) × (seed_thread_state
            (suc n)
            env
            parent_calloc
            calloc
            threads
            given
            (initialize_thread_state identity root [])
          ≡ done (after, child'))
        × Seeded threads identity root space_id seed n calloc child'
  seed_thread_state-Seeded calloc n {given} {after} {space_id} {seed} starts apart free =
      let (id, run, chosen, is_id, unused) =
        unique_thread_id-Chosen threads identity.address space_id seed n free in
      let (inherits, seeded) = Starts-parent parent_calloc starts in
      let ends : Run ℕ → Run (Option ThreadState × ThreadState) =
        λ r. (r >>= λ i. done (after, seed_child calloc child i space_id)) in
      (
        seed_child calloc child id space_id,
        found_parent (suc n) calloc given
            ∙ ap
                (λ (i : ℕ).
                  started_with (suc n) calloc i
                    (thread_id_seed env parent_calloc (parent_of given child)))
                inherits
            ∙ ap (started_with (suc n) calloc space_id) seeded
            ∙ ap ends run,
        child-Seeded threads identity root space_id id seed n chosen is_id unused calloc
            (named-Fresh threads identity root space_id id calloc apart),
      )
