-- ===== src/Spaces/Writes.antt =====
-- What a write to a space, a frame or a scope leaves to be read.
use retrace_cpython.Base.{
  ℕ, ◌≡◌, refl, sym, ◌∙◌, ap, arith, ◌+◌, ◌<◌, ◌^◌, ◌==◌, if◌then◌else◌, Bool, true, false, Option,
  none, some, List, [], ◌∷◌, inl, inr, Bool-cases, ℕ_discrete,
}
use retrace_cpython.Frames.{
  Frame, FrameState, Space, Counter, root_counter, frame_counter, scope_counter,
}
use retrace_cpython.Spaces.{Scope, ThreadState, space_at, owns, write_space}
use retrace_cpython.Spaces.Activation.{
  with_state, write_frame, write_scope, frame_at, count_call, count_root, count_scope,
}

abbrev pub changed {ℓ} : {A : Type ℓ} → (A → A) → Option A → Option A
changed write none = none
changed write (some x) = some (write x)

abbrev pub holds {ℓ} : {A : Type ℓ} → Option A → Bool
holds none = false
holds (some x) = true

pub owns-eq-holds : (spaces : List Space) (a : ℕ) → owns spaces a ≡ holds (space_at spaces a)
unfolding owns space_at
owns-eq-holds [] a = refl
owns-eq-holds (space ∷ spaces) a = elim (Bool-cases (space.address == a)) [
  | inl y ↦ rw y refl
  | inr n ↦ rw n (owns-eq-holds spaces a)
]

module _ (a : ℕ) (write : Space → Space)
    (keeps : (space : Space) → (write space).address ≡ space.address) where
  pub space_at-write_space :
      (spaces : List Space) (q : ℕ)
      → space_at (write_space spaces a write) q
        ≡ (if a == q then changed write (space_at spaces q) else space_at spaces q)
  unfolding space_at write_space
  space_at-write_space [] q = ground arith
  space_at-write_space (space ∷ spaces) q = elim (ℕ_discrete space.address a) [
    | yes y ↦
        let same : (space.address == a) ≡ true = ground arith in
        let same_key : ((write space).address == q) ≡ (space.address == q) =
          ap (λ (n : ℕ). n == q) (keeps space) in
        let same_test : (a == q) ≡ (space.address == q) = ap (λ (n : ℕ). n == q) (sym y) in
        rw (same, same_key, same_test)
          (elim (Bool-cases (space.address == q)) [ inl b ↦ rw b refl | inr b ↦ rw b refl ])
    | no n ↦
        let other : (space.address == a) ≡ false = ground arith in
        rw other (elim (Bool-cases (space.address == q)) [
          | inl b ↦ let apart : (a == q) ≡ false = ground arith in rw (b, apart) refl
          | inr b ↦ rw (b, space_at-write_space spaces q) refl
        ])
  ]

  pub write_space_self :
      (spaces : List Space)
      → space_at (write_space spaces a write) a ≡ changed write (space_at spaces a)
  write_space_self spaces =
      let same : (a == a) ≡ true = ground arith in space_at-write_space spaces a ∙ rw same refl

  -- What does not depend on the part that is written.
  pub read-write_space {ℓ} :
      {A : Type ℓ} (read : Option Space → A)
      → ((space : Space) → read (some (write space)) ≡ read (some space))
      → (spaces : List Space) (q : ℕ)
      → read (space_at (write_space spaces a write) q) ≡ read (space_at spaces q)
  read-write_space read blind spaces q = elim (Bool-cases (a == q)) [
    | inl y ↦ ap read (space_at-write_space spaces q) ∙ rw y (same (space_at spaces q))
    | inr n ↦ ap read (space_at-write_space spaces q) ∙ rw n refl
  ]
    where
      same : (o : Option Space) → read (changed write o) ≡ read o
      same none = refl
      same (some space) = blind space

  pub owns-write_space :
      (spaces : List Space) (q : ℕ) → owns (write_space spaces a write) q ≡ owns spaces q
  owns-write_space spaces q =
      owns-eq-holds (write_space spaces a write) q
      ∙ read-write_space holds (λ space. refl) spaces q
      ∙ sym (owns-eq-holds spaces q)

pub write_frame-head :
    (frame : Frame) (frames : List Frame) (write : FrameState → FrameState)
    → write_frame (frame ∷ frames) frame.address write ≡ with_state write frame ∷ frames
unfolding write_frame
write_frame-head frame frames write =
    let same : (frame.address == frame.address) ≡ true = ground arith in rw same refl

pub frame_at-head :
    (frame : Frame) (frames : List Frame) → frame_at (frame ∷ frames) frame.address ≡ some frame
unfolding frame_at
frame_at-head frame frames =
    let same : (frame.address == frame.address) ≡ true = ground arith in rw same refl

-- No two frames have one address.
pub data Apart : List Frame → Type 0 where
  nothing : Apart []
  another :
      {frame : Frame} {frames : List Frame}
      → frame_at frames frame.address ≡ none
      → Apart frames
      → Apart (frame ∷ frames)

pub frame_at-write_frame :
    (frames : List Frame) (a : ℕ) (write : FrameState → FrameState) (q : ℕ)
    → frame_at frames q ≡ none
    → frame_at (write_frame frames a write) q ≡ none
unfolding frame_at write_frame
frame_at-write_frame [] a write q free = refl
frame_at-write_frame (frame ∷ frames) a write q free = elim (Bool-cases (frame.address == q)) [
  | inl y ↦ ground (arith, y, free)
  | inr n ↦ elim (Bool-cases (frame.address == a)) [
    | inl b ↦ ground (arith, b, n, free)
    | inr b ↦ rw (b, n) (frame_at-write_frame frames a write q (ground (arith, n, free)))
  ]
]

pub write_frame-Apart :
    (a : ℕ) (write : FrameState → FrameState) {frames : List Frame}
    → Apart frames
    → Apart (write_frame frames a write)
unfolding write_frame
write_frame-Apart a write nothing = nothing
write_frame-Apart a write (another {frame} {frames} free rest) =
    elim (Bool-cases (frame.address == a)) [
      | inl y ↦ rw y (another free rest)
      | inr n ↦ rw n (
          another (frame_at-write_frame frames a write frame.address free)
            (write_frame-Apart a write rest))
    ]

unfoldable pub scope_at : List Scope → ℕ → Option Scope
scope_at [] address = none
scope_at (scope ∷ scopes) address =
    let rest = scope_at scopes address in if scope.address == address then some scope else rest

pub scope_at-count :
    (scopes : List Scope) (a : ℕ)
    → scope_at (write_scope scopes a count_scope) a ≡ changed count_scope (scope_at scopes a)
unfolding scope_at write_scope
scope_at-count [] a = refl
scope_at-count (scope ∷ scopes) a = elim (Bool-cases (scope.address == a)) [
  | inl y ↦ rw (y, y) refl
  | inr n ↦ rw (n, n) (scope_at-count scopes a)
]

abbrev pub root_ordinal : Option Space → ℕ
root_ordinal none = 0
root_ordinal (some space) = space.root_call_ordinal

abbrev pub frame_ordinal : Option Frame → ℕ
frame_ordinal none = 0
frame_ordinal (some frame) = frame.retrace.current_call_ordinal

abbrev pub scope_ordinal : Option Scope → ℕ
scope_ordinal none = 0
scope_ordinal (some scope) = scope.local_root_call_ordinal

-- What a counter stands at.
unfoldable pub count_of : ThreadState → Option Counter → ℕ
unfolding space_at frame_at scope_at
count_of t none = 0
count_of t (some (root_counter a)) = root_ordinal (space_at t.spaces a)
count_of t (some (frame_counter a)) = frame_ordinal (frame_at t.frames a)
count_of t (some (scope_counter a)) = scope_ordinal (scope_at t.scopes a)

-- A counter of a space or of a scope that exists.
abbrev pub IsBase : ThreadState → Counter → Type 0
IsBase t (root_counter a) = holds (space_at t.spaces a) ≡ true
IsBase t (frame_counter a) = ⊥
IsBase t (scope_counter a) = holds (scope_at t.scopes a) ≡ true

root_counted :
    (o : Option Space)
    → holds o ≡ true
    → root_ordinal o + 1 < 2 ^ 64
    → root_ordinal (changed count_root o) ≡ root_ordinal o + 1
root_counted none h small = cc
root_counted (some space) h small = omega arith

scope_counted :
    (o : Option Scope)
    → holds o ≡ true
    → scope_ordinal o + 1 < 2 ^ 64
    → scope_ordinal (changed count_scope o) ≡ scope_ordinal o + 1
scope_counted none h small = cc
scope_counted (some scope) h small = omega arith

-- Counting in a base counter raises it by one, unless it overflows.
pub count_of-count_call :
    (t : ThreadState) (base : Counter)
    → IsBase t base
    → count_of t (some base) + 1 < 2 ^ 64
    → count_of (count_call t (some base)) (some base) ≡ count_of t (some base) + 1
unfolding count_of count_call
count_of-count_call t (root_counter a) h small =
    ap root_ordinal (write_space_self a count_root (λ space. refl) t.spaces)
    ∙ root_counted (space_at t.spaces a) h small
count_of-count_call t (frame_counter a) h small = absurd h
count_of-count_call t (scope_counter a) h small =
    ap scope_ordinal (scope_at-count t.scopes a) ∙ scope_counted (scope_at t.scopes a) h small
