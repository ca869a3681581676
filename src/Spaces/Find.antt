-- ===== src/Spaces/Find.antt =====
-- The spaces of a thread: each id has one state, which is made when it is first asked for and stays.
use retrace_cpython.Base.{
  ℕ, ◌≡◌, refl, sym, ◌∙◌, ap, arith, ◌==◌, if◌then◌else◌, false, none, some, List, [], ◌∷◌, ◌++◌,
  inl, inr, Bool-cases,
}
use retrace_cpython.Frames.{Space}
use retrace_cpython.Spaces.{Calloc, find_space, space_at}
use retrace_cpython.Spaces.Writes.{holds}

-- No two spaces have one address or one id.
pub data Distinct : List Space → Type 0 where
  nothing : Distinct []
  another :
      {space : Space} {spaces : List Space}
      → space_at spaces space.address ≡ none
      → find_space spaces space.space_id ≡ none
      → Distinct spaces
      → Distinct (space ∷ spaces)

-- Memory that is handed out holds no space.
abbrev pub Fresh : Calloc → List Space → Type 0
Fresh none spaces = Unit {0}
Fresh (some address) spaces = space_at spaces address ≡ none

pub space_at-append :
    (spaces : List Space) (space : Space) (q : ℕ)
    → space_at (spaces ++ space ∷ []) q ≡ (
        if holds (space_at spaces q)
        then space_at spaces q
        else if space.address == q
        then some space
        else none)
unfolding space_at
space_at-append [] space q = refl
space_at-append (first ∷ spaces) space q = elim (Bool-cases (first.address == q)) [
  | inl y ↦ rw y refl
  | inr n ↦ rw n (space_at-append spaces space q)
]

pub find_space-append :
    (spaces : List Space) (space : Space) (q : ℕ)
    → find_space (spaces ++ space ∷ []) q ≡ (
        if holds (find_space spaces q)
        then find_space spaces q
        else if space.space_id == q
        then some space
        else none)
unfolding find_space
find_space-append [] space q = refl
find_space-append (first ∷ spaces) space q = elim (Bool-cases (first.space_id == q)) [
  | inl y ↦ rw y refl
  | inr n ↦ rw n (find_space-append spaces space q)
]

-- What is found has the id, and stands where its address says.
pub found_space :
    {spaces : List Space} (id : ℕ) (space : Space)
    → Distinct spaces
    → find_space spaces id ≡ some space
    → (space.space_id ≡ id) × (space_at spaces space.address ≡ some space)
unfolding find_space space_at
found_space id space nothing e = cc
found_space id space (another {space = first} {spaces} free other rest) e =
    elim (Bool-cases (first.space_id == id)) [
      | inl y ↦ ground (arith, y, e)
      | inr n ↦
          let (same, there) = found_space id space rest (ground (arith, n, e)) in
          (
            same,
            elim (Bool-cases (first.address == space.address)) [
              | inr m ↦ rw m there
              | inl m ↦
                  let at : first.address ≡ space.address = ground arith in
                  absurd
                    (ground (arith, sym there ∙ ap (λ (a : ℕ). space_at spaces a) (sym at) ∙ free))
            ],
          )
    ]

absent_append :
    (spaces : List Space) (space : Space) (q : ℕ)
    → space_at spaces q ≡ none
    → (space.address == q) ≡ false
    → space_at (spaces ++ space ∷ []) q ≡ none
absent_append spaces space q free other = space_at-append spaces space q ∙ rw (free, other) refl

unfound_append :
    (spaces : List Space) (space : Space) (q : ℕ)
    → find_space spaces q ≡ none
    → (space.space_id == q) ≡ false
    → find_space (spaces ++ space ∷ []) q ≡ none
unfound_append spaces space q free other = find_space-append spaces space q ∙ rw (free, other) refl

-- A space with a new address and a new id is added at the end.
pub Distinct-append :
    {spaces : List Space} (space : Space)
    → Distinct spaces
    → space_at spaces space.address ≡ none
    → find_space spaces space.space_id ≡ none
    → Distinct (spaces ++ space ∷ [])
unfolding find_space space_at
Distinct-append space nothing free new = another refl refl nothing
Distinct-append space (another {space = first} {spaces} apart other rest) free new =
    another (absent_append spaces space first.address apart (ground (arith, free)))
      (unfound_append spaces space first.space_id other (ground (arith, new)))
      (Distinct-append space rest (ground (arith, free)) (ground (arith, new)))
