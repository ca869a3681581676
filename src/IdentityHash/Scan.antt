-- ===== src/IdentityHash/Scan.antt =====
-- Families of slots: update at one slot, the value under a key by a look at every slot, and the
-- number of slots that are taken.
use retrace_cpython.Base.{
  ℕ, zero, suc, ◌≡◌, ◌≢◌, refl, arith, ◌+◌, ◌<◌, ◌≤◌, ◌==◌, if◌then◌else◌, Option, none, some, ◌⊎◌,
  inl, inr, ℕ_discrete,
}

abbrev pub update : (ℕ → ℕ) → ℕ → ℕ → ℕ → ℕ
update f i v j = if i == j then v else f j

-- A fact about an updated family holds where the update stands and elsewhere.
pub update_cases :
    (P : ℕ → Type 0) (f : ℕ → ℕ) (i v j : ℕ)
    → (i ≡ j → P v)
    → (i ≢ j → P (f j))
    → P (update f i v j)
update_cases P f i v j here there = elim (ℕ_discrete i j) [
  | yes e ↦ let same : update f i v j ≡ v = ground arith in rw same (here e)
  | no e ↦ let same : update f i v j ≡ f j = ground arith in rw same (there e)
]

-- What a table maps a key to, by a look at every slot.
unfoldable pub scan : ℕ → (ℕ → ℕ) → (ℕ → ℕ) → ℕ → Option ℕ
scan zero keys values q = none
scan (suc n) keys values q = if keys n == q then some (values n) else scan n keys values q

-- How many slots are taken.
unfoldable pub occupied : ℕ → (ℕ → ℕ) → ℕ
occupied zero keys = 0
occupied (suc n) keys = (if keys n == 0 then 0 else 1) + occupied n keys

module _ (keys values : ℕ → ℕ) (q : ℕ) where
  pub scan-absent : (n : ℕ) → ((i : ℕ) → i < n → keys i ≢ q) → scan n keys values q ≡ none
  unfolding scan
  scan-absent zero h = refl
  scan-absent (suc n) h = ground (arith, h n, scan-absent n (λ i p. h i (omega arith)))

  pub scan-present :
      (n i : ℕ)
      → i < n
      → keys i ≡ q
      → ((j : ℕ) → j < n → keys j ≡ q → j ≡ i)
      → scan n keys values q ≡ some (values i)
  unfolding scan
  scan-present zero i ri e only = absurd (omega arith)
  scan-present (suc n) i ri e only = elim (ℕ_discrete i n) [
    | yes p ↦ rw p (ground arith)
    | no p ↦
        ground (arith, only n, scan-present n i (omega arith) e (λ j rj f. only j (omega arith) f))
  ]

  -- A key stands in some slot below `n`, or in none.
  pub slot_cases : (n : ℕ) → ((i : ℕ) × (i < n) × (keys i ≡ q)) ⊎ ((i : ℕ) → i < n → keys i ≢ q)
  slot_cases zero = inr (λ i h. absurd (omega arith))
  slot_cases (suc n) = elim (ℕ_discrete (keys n) q) [
    | yes e ↦ inl (n, omega arith, e)
    | no e ↦ elim (slot_cases n) [
      | inl (i, p, f) ↦ inl (i, omega arith, f)
      | inr none_below ↦
          inr (λ i h. elim (ℕ_discrete i n) [ yes p ↦ rw p e | no p ↦ none_below i (omega arith) ])
    ]
  ]

pub occupied-le : (n : ℕ) (keys : ℕ → ℕ) → occupied n keys ≤ n
unfolding occupied
occupied-le zero keys = omega arith
occupied-le (suc n) keys = ground (arith, occupied-le n keys)

pub occupied-update_ge :
    (n : ℕ) (keys : ℕ → ℕ) (i v : ℕ) → n ≤ i → occupied n (update keys i v) ≡ occupied n keys
unfolding occupied
occupied-update_ge zero keys i v h = refl
occupied-update_ge (suc n) keys i v h = ground (arith, occupied-update_ge n keys i v)

pub occupied-update :
    (n : ℕ) (keys : ℕ → ℕ) (i v : ℕ)
    → i < n
    → occupied n (update keys i v) + (if keys i == 0 then 0 else 1)
      ≡ occupied n keys + (if v == 0 then 0 else 1)
unfolding occupied
occupied-update zero keys i v h = absurd (omega arith)
occupied-update (suc n) keys i v h = elim (ℕ_discrete i n) [
  | yes p ↦ ground (arith, occupied-update_ge n keys i v)
  | no p ↦ ground (arith, occupied-update n keys i v)
]

-- A table that is not full has an empty slot.
pub empty_slot : (n : ℕ) (keys : ℕ → ℕ) → occupied n keys < n → (z : ℕ) × (z < n) × (keys z ≡ 0)
unfolding occupied
empty_slot zero keys h = absurd (omega arith)
empty_slot (suc n) keys h = elim (ℕ_discrete (keys n) 0) [
  | yes e ↦ (n, omega arith, e)
  | no e ↦ let (z, p, f) = empty_slot n keys (ground arith) in (z, omega arith, f)
]

pub all_empty : (n : ℕ) (keys : ℕ → ℕ) → occupied n keys ≡ 0 → (i : ℕ) → i < n → keys i ≡ 0
unfolding occupied
all_empty zero keys e i h = absurd (omega arith)
all_empty (suc n) keys e i h = elim (ℕ_discrete i n) [
  | yes p ↦ rw p (ground arith)
  | no p ↦ all_empty n keys (ground arith) i (omega arith)
]

pub none_occupied : (n : ℕ) (keys : ℕ → ℕ) → ((i : ℕ) → i < n → keys i ≡ 0) → occupied n keys ≡ 0
unfolding occupied
none_occupied zero keys h = refl
none_occupied (suc n) keys h = ground (arith, h n, none_occupied n keys (λ i p. h i (omega arith)))

-- A key that moves to an empty slot is still one key.
pub occupied-move :
    (n : ℕ) (keys : ℕ → ℕ) (i j : ℕ)
    → i < n
    → j < n
    → i ≢ j
    → keys i ≡ 0
    → occupied n (update (update keys i (keys j)) j 0) ≡ occupied n keys
occupied-move n keys i j ri rj ne e =
    ground (
      arith,
      occupied-update n keys i (keys j) ri,
      occupied-update n (update keys i (keys j)) j 0 rj,
    )
