-- ===== src/Threads/Ident/Laws.antt =====
-- A public ident names a thread if exactly one thread answers to it.
use native.Mathlib.Nat.{add-zero, zero-add}
use retrace_cpython.Base.{
  ℕ, suc, ◌≡◌, ◌≢◌, refl, ◌∙◌, ap, arith, ◌+◌, ◌≤◌, ◌==◌, if◌then◌else◌, Bool, true, false, Option,
  none, some, List, [], ◌∷◌, ◌⊎◌, inl, inr, ℕ_discrete,
}
use retrace_cpython.Threads.Unique.{Thread}
use retrace_cpython.Threads.Ident.{
  Search, native_answers, retrace_answers, note_thread, search_threads, same_thread, decide_match,
  thread_state_from_public_ident, native_id, native_ident_of,
  cpython_thread_ident_from_public_ident,
}
use retrace_cpython.Threads.Ident.Count.{
  count, last, either, sole, same_one, count-either-ge, count-either-le, AllApart,
}

count_step : (b : Bool) (n c : ℕ) → (if b then n + 1 else n) + c ≡ n + (if b then suc c else c)
count_step true n c = omega arith
count_step false n c = refl

search-eq :
    (id : ℕ) (ts : List Thread) (s : Search)
    → search_threads id ts s ≡ record {
      native_match = last (native_answers id) ts s.native_match;
      retrace_match = last (retrace_answers id) ts s.retrace_match;
      native_count = s.native_count + count (native_answers id) ts;
      retrace_count = s.retrace_count + count (retrace_answers id) ts;
    }
unfolding search_threads note_thread count last
search-eq id [] s = rw (add-zero s.native_count, add-zero s.retrace_count) refl
search-eq id (t ∷ ts) s =
    search-eq id ts (note_thread id t s)
    ∙ rw
        (
          count_step (native_answers id t) s.native_count (count (native_answers id) ts),
          count_step (retrace_answers id t) s.retrace_count (count (retrace_answers id) ts),
        )
        refl

module _ (id : ℕ) (ts : List Thread) where
  abbrev pub answers : Thread → Bool
  answers = either (native_answers id) (retrace_answers id)

  result-eq :
      thread_state_from_public_ident ts id
      ≡ decide_match (record {
        native_match = last (native_answers id) ts none;
        retrace_match = last (retrace_answers id) ts none;
        native_count = count (native_answers id) ts;
        retrace_count = count (retrace_answers id) ts;
      })
  unfolding thread_state_from_public_ident
  result-eq = ap decide_match (
      search-eq id ts _
      ∙ rw (zero-add (count (native_answers id) ts), zero-add (count (retrace_answers id) ts)) refl)

  same_self : (o : Option Thread) → same_thread o o ≡ true
  unfolding same_thread
  same_self none = refl
  same_self (some t) = ground arith

  -- If exactly one thread answers to a public ident, by its native or its retrace id, the lookup
  -- returns that thread.
  pub ident-found :
      count answers ts ≡ 1 → thread_state_from_public_ident ts id ≡ last answers ts none
  unfolding decide_match
  ident-found e = elim (sole (native_answers id) (retrace_answers id) ts none none none e) [
    | inl (n, r, m) ↦ result-eq ∙ rw (n, r) m
    | inr (inl (n, r, m)) ↦ result-eq ∙ rw (n, r) m
    | inr (inr (n, r, m, m')) ↦ result-eq ∙ rw (n, r, m, m', same_self (last answers ts none)) refl
  ]

  decided :
      (s : Search)
      → decide_match s ≢ none
      → ((s.native_count ≡ 1)
          × ((s.retrace_count ≡ 0) ⊎ (same_thread s.retrace_match s.native_match ≡ true)))
        ⊎ ((s.native_count ≡ 0) × (s.retrace_count ≡ 1))
  unfolding decide_match
  decided s found = ground arith

  -- If the threads are different objects, at most one has the ident as its retrace id, and the
  -- lookup of a public ident finds a thread, then exactly one thread answers to the ident.
  pub ident-sole :
      AllApart ts
      → count (retrace_answers id) ts ≤ 1
      → thread_state_from_public_ident ts id ≢ none
      → count answers ts ≡ 1
  ident-sole h le found = elim (decided _ (λ e. found (result-eq ∙ e))) [
    | inr (n, r) ↦ sandwich (omega (arith, n, r))
    | inl (n, how) ↦ elim how [
      | inl r ↦ sandwich (omega (arith, n, r))
      | inr same ↦ elim (ℕ_discrete (count (retrace_answers id) ts) 1) [
        | yes r ↦ same_one (native_answers id) (retrace_answers id) ts none none h n r same
        | no r ↦ sandwich (omega (arith, n, r, le))
      ]
    ]
  ]
    where
      sandwich :
          count (native_answers id) ts + count (retrace_answers id) ts ≡ 1 → count answers ts ≡ 1
      sandwich e = omega (
        arith,
        e,
        count-either-le (native_answers id) (retrace_answers id) ts,
        (count-either-ge (native_answers id) (retrace_answers id) ts).0,
        (count-either-ge (native_answers id) (retrace_answers id) ts).1,
      )

  -- If exactly one thread answers to a public ident, the ident is translated to the native id of
  -- that thread, or left as it is if the thread has none.
  pub ident-translated :
      {t : Thread}
      → count answers ts ≡ 1
      → last answers ts none ≡ some t
      → cpython_thread_ident_from_public_ident ts id
        ≡ (if native_id t == 0 then id else native_id t)
  unfolding cpython_thread_ident_from_public_ident native_ident_of
  ident-translated {t} e l = ap (λ o. native_ident_of o id) (ident-found e ∙ l) ∙ ground arith
