-- ===== src/Threads/Unique/Laws.antt =====
-- The loop returns the first id of its sequence that no other thread has.
use retrace_cpython.Base.{
  ℕ, zero, suc, ◌≡◌, ◌≢◌, refl, arith, ◌+◌, ◌≤◌, ◌<◌, ◌==◌, true, false, List, [], ◌∷◌, Run, done,
  inl, inr, Bool-cases, ℕ_discrete,
}
use retrace_cpython.Words.Arith.{add64}
use retrace_cpython.Mixers.{mix64}
use retrace_cpython.Threads.Ids.{compose_thread_id}
use retrace_cpython.Threads.Ids.Laws.{IsThreadId, compose_thread_id-IsThreadId}
use retrace_cpython.Threads.Unique.{
  Thread, some_thread_has, thread_id_is_active, retry_step, unique_loop, unique_thread_id,
}

-- Every live thread but the one skipped has another id.
pub data Unused (skip id : ℕ) : List Thread → Type 0 where
  nobody : Unused skip id []
  itself :
      {t : Thread} {ts : List Thread}
      → t.address ≡ skip
      → Unused skip id ts
      → Unused skip id (t ∷ ts)
  other :
      {t : Thread} {ts : List Thread}
      → t.retrace_thread_id ≢ id
      → Unused skip id ts
      → Unused skip id (t ∷ ts)

pub inactive-Unused :
    (threads : List Thread) {skip id : ℕ}
    → some_thread_has threads skip id ≡ false
    → Unused skip id threads
unfolding some_thread_has
inactive-Unused [] e = nobody
inactive-Unused (t ∷ ts) {skip} {id} e = elim (Bool-cases (t.address == skip)) [
  | inl same ↦ itself (ground arith) (inactive-Unused ts (ground arith))
  | inr differs ↦ other (ground arith) (inactive-Unused ts (ground arith))
]

-- The ids in the order in which the loop tries them, with the word mixed into the next one.
pub retry : ℕ → ℕ
retry zero = retry_step
retry (suc n) = add64 (retry n) retry_step

module _ (threads : List Thread) (skip space_id hash : ℕ) where
  unfoldable pub candidate : ℕ → ℕ
  candidate zero = compose_thread_id space_id hash
  candidate (suc n) = compose_thread_id space_id (mix64 (candidate n) (retry n))

  candidate-IsThreadId : (n : ℕ) → IsThreadId space_id (candidate n)
  unfolding candidate
  candidate-IsThreadId zero = compose_thread_id-IsThreadId space_id hash
  candidate-IsThreadId (suc n) =
      compose_thread_id-IsThreadId space_id (mix64 (candidate n) (retry n))

  -- The id chosen is the first candidate that no other thread has.
  pub record Chosen (from limit id : ℕ) : Type 0 where
    pub place : ℕ
    pub within : place ≤ limit
    pub is_candidate : id ≡ candidate place
    pub free : thread_id_is_active threads skip id ≡ false
    pub first :
        (j : ℕ) → from ≤ j → j < place → thread_id_is_active threads skip (candidate j) ≡ true

  abbrev from_place : ℕ → ℕ → Run ℕ
  from_place fuel i = unique_loop fuel threads skip space_id (candidate i) (retry i)

  later :
      {i limit id : ℕ}
      → thread_id_is_active threads skip (candidate i) ≡ true
      → Chosen (suc i) limit id
      → Chosen i limit id
  later {i} taken c = record {
    place = c.place;
    within = c.within;
    is_candidate = c.is_candidate;
    free = c.free;
    first = λ j le lt. elim (ℕ_discrete i j) [
      | yes e ↦ rw (← e) taken
      | no ne ↦ c.first j (omega (arith, ne)) lt
    ];
  }

  stops :
      (n i limit : ℕ)
      → i ≤ limit
      → thread_id_is_active threads skip (candidate i) ≡ false
      → (id : ℕ) × (from_place (suc n) i ≡ done id) × Chosen i limit id
  unfolding unique_loop
  stops n i limit le unused = (
    candidate i,
    rw unused refl,
    record {
      place = i;
      within = le;
      is_candidate = refl;
      free = unused;
      first = λ j le lt. absurd (omega arith);
    },
  )

  loop_ends :
      (n i limit : ℕ)
      → limit ≡ i + n
      → thread_id_is_active threads skip (candidate limit) ≡ false
      → (id : ℕ) × (from_place (suc n) i ≡ done id) × Chosen i limit id
  unfolding unique_loop candidate retry
  loop_ends zero i limit e free = stops 0 i limit (omega arith) (rw (← at_limit) free)
    where
      at_limit : limit ≡ i
      at_limit = omega arith
  loop_ends (suc n) i limit e free =
      elim (Bool-cases (thread_id_is_active threads skip (candidate i))) [
        | inr unused ↦ stops (suc n) i limit (omega arith) unused
        | inl taken ↦
            let (id, run, c) = loop_ends n (suc i) limit (omega arith) free in
            (id, rw taken run, later taken c)
      ]

  nobody_has :
      (id : ℕ)
      → thread_id_is_active threads skip id ≡ false
      → some_thread_has threads skip id ≡ false
  unfolding thread_id_is_active
  nobody_has id free = ground arith

  -- If one of the candidates of a number n is not active, the choice of a thread id ends after n
  -- + 1 rounds at most; it returns the first candidate that is not active, which is a thread id
  -- of the space, and every live thread but the one skipped has another id.
  pub unique_thread_id-Chosen :
      (n : ℕ)
      → thread_id_is_active threads skip (candidate n) ≡ false
      → (id : ℕ) × (unique_thread_id (suc n) threads skip space_id hash ≡ done id)
        × Chosen 0 n id
        × IsThreadId space_id id
        × Unused skip id threads
  unfolding unique_thread_id candidate retry
  unique_thread_id-Chosen n free =
      let (id, run, c) = loop_ends n 0 n (omega arith) free in
      (
        id,
        run,
        c,
        rw c.is_candidate (candidate-IsThreadId c.place),
        inactive-Unused threads (nobody_has id c.free),
      )
