-- ===== src/Spaces/Growth/Base.antt =====
-- The counter at the base of a space under writes to spaces, frames and other counters.
use retrace_cpython.Base.{
  ℕ, ◌≡◌, refl, ◌∙◌, ◌==◌, true, Option, none, some, List, [], ◌∷◌, inl, inr, Bool-cases,
}
use retrace_cpython.Frames.{Frame, Space, Counter, root_counter, frame_counter, scope_counter}
use retrace_cpython.Spaces.{Scope, ThreadState, space_at, write_space}
use retrace_cpython.Spaces.Activation.{count_call, count_root, count_scope, write_scope}
use retrace_cpython.Spaces.Writes.{
  holds, scope_at, count_of, IsBase, root_ordinal, read-write_space,
}
use retrace_cpython.Spaces.Linked.{is_base}

pub IsBase-is_base : (t : ThreadState) (base : Counter) → IsBase t base → is_base base ≡ true
IsBase-is_base t (root_counter a) h = refl
IsBase-is_base t (frame_counter a) h = absurd h
IsBase-is_base t (scope_counter a) h = refl

module _ (s : ℕ) (write : Space → Space)
    (keeps : (space : Space) → (write space).address ≡ space.address)
    (counts : (space : Space) → (write space).root_call_ordinal ≡ space.root_call_ordinal)
    (t : ThreadState) (frames : List Frame) (ptr : Option Counter) where
  abbrev pub rewritten : ThreadState
  rewritten = record t {
    spaces = write_space t.spaces s write;
    frames = frames;
    call_ordinal_ptr = ptr;
  }

  pub IsBase-rewritten : (base : Counter) → IsBase t base → IsBase rewritten base
  IsBase-rewritten (root_counter a) h =
      read-write_space s write keeps holds (λ space. refl) t.spaces a ∙ h
  IsBase-rewritten (frame_counter a) h = h
  IsBase-rewritten (scope_counter a) h = h

  pub count_of-rewritten :
      (base : Counter)
      → is_base base ≡ true
      → count_of rewritten (some base) ≡ count_of t (some base)
  unfolding count_of
  count_of-rewritten (root_counter a) h =
      read-write_space s write keeps root_ordinal (λ space. counts space) t.spaces a
  count_of-rewritten (frame_counter a) h = cc
  count_of-rewritten (scope_counter a) h = refl

pub IsBase-frames :
    (t : ThreadState) (frames : List Frame) (base : Counter)
    → IsBase t base
    → IsBase (record t { frames = frames }) base
IsBase-frames t frames (root_counter a) h = h
IsBase-frames t frames (frame_counter a) h = h
IsBase-frames t frames (scope_counter a) h = h

pub count_of-frames :
    (t : ThreadState) (frames : List Frame) (base : Counter)
    → is_base base ≡ true
    → count_of (record t { frames = frames }) (some base) ≡ count_of t (some base)
unfolding count_of
count_of-frames t frames (root_counter a) h = refl
count_of-frames t frames (frame_counter a) h = cc
count_of-frames t frames (scope_counter a) h = refl

holds-write_scope :
    (scopes : List Scope) (a q : ℕ)
    → holds (scope_at (write_scope scopes a count_scope) q) ≡ holds (scope_at scopes q)
unfolding scope_at write_scope
holds-write_scope [] a q = refl
holds-write_scope (scope ∷ scopes) a q = elim (Bool-cases (scope.address == a)) [
  | inl y ↦ rw y (elim (Bool-cases (scope.address == q)) [ inl b ↦ rw b refl | inr b ↦ rw b refl ])
  | inr n ↦ rw n (elim (Bool-cases (scope.address == q)) [
    | inl b ↦ rw b refl
    | inr b ↦ rw b (holds-write_scope scopes a q)
  ])
]

pub IsBase-count_call :
    (t : ThreadState) (ptr : Option Counter) (base : Counter)
    → IsBase t base
    → IsBase (count_call t ptr) base
unfolding count_call
IsBase-count_call t none base h = h
IsBase-count_call t (some (root_counter a)) (root_counter b) h =
    read-write_space a count_root (λ space. refl) holds (λ space. refl) t.spaces b ∙ h
IsBase-count_call t (some (root_counter a)) (frame_counter b) h = h
IsBase-count_call t (some (root_counter a)) (scope_counter b) h = h
IsBase-count_call t (some (frame_counter a)) (root_counter b) h = h
IsBase-count_call t (some (frame_counter a)) (frame_counter b) h = h
IsBase-count_call t (some (frame_counter a)) (scope_counter b) h = h
IsBase-count_call t (some (scope_counter a)) (root_counter b) h = h
IsBase-count_call t (some (scope_counter a)) (frame_counter b) h = h
IsBase-count_call t (some (scope_counter a)) (scope_counter b) h =
    holds-write_scope t.scopes a b ∙ h

pub count_of-count_frame :
    (t : ThreadState) (a : ℕ) (base : Counter)
    → is_base base ≡ true
    → count_of (count_call t (some (frame_counter a))) (some base) ≡ count_of t (some base)
unfolding count_call count_of
count_of-count_frame t a (root_counter b) h = refl
count_of-count_frame t a (frame_counter b) h = cc
count_of-count_frame t a (scope_counter b) h = refl

-- Counting a call leaves the current space and what is read of it, but its calls, alone.
pub count_call-current :
    (t : ThreadState) (ptr : Option Counter)
    → ((count_call t ptr).current_space ≡ t.current_space)
      × ((count_call t ptr).inherited_space_id ≡ t.inherited_space_id)
unfolding count_call
count_call-current t none = (refl, refl)
count_call-current t (some (root_counter a)) = (refl, refl)
count_call-current t (some (frame_counter a)) = (refl, refl)
count_call-current t (some (scope_counter a)) = (refl, refl)

pub read-count_call {ℓ} :
    {A : Type ℓ} (read : Option Space → A)
    → ((space : Space) → read (some (count_root space)) ≡ read (some space))
    → (t : ThreadState) (ptr : Option Counter) (q : ℕ)
    → read (space_at (count_call t ptr).spaces q) ≡ read (space_at t.spaces q)
unfolding count_call
read-count_call read blind t none q = refl
read-count_call read blind t (some (root_counter a)) q =
    read-write_space a count_root (λ space. refl) read blind t.spaces q
read-count_call read blind t (some (frame_counter a)) q = refl
read-count_call read blind t (some (scope_counter a)) q = refl
