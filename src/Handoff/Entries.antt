-- ===== src/Handoff/Entries.antt =====
-- What a change to one entry, or to all of them, does to the entry of a thread.
use retrace_cpython.Base.{
  ℕ, ◌≡◌, refl, sym, ap, arith, ◌==◌, if◌then◌else◌, true, false, Option, none, some, List, [], ◌∷◌,
  inl, inr, Bool-cases, ℕ_discrete,
}
use retrace_cpython.Handoff.{
  Entry, find_entry, change_entry, wake_for_close, wake_all, release_gate,
}

abbrev pub changed : (Entry → Entry) → Option Entry → Option Entry
changed f none = none
changed f (some e) = some (f e)

-- The change leaves the thread of an entry alone.
abbrev pub KeepsThread : (Entry → Entry) → Type 0
KeepsThread f = (e : Entry) → (f e).thread_id ≡ e.thread_id

pub find_entry-change_entry :
    (entries : List Entry) (t q : ℕ) (f : Entry → Entry)
    → KeepsThread f
    → find_entry (change_entry entries t f) q
      ≡ (if t == q then changed f (find_entry entries q) else find_entry entries q)
unfolding find_entry change_entry
find_entry-change_entry [] t q f k = ground arith
find_entry-change_entry (e ∷ entries) t q f k = elim (ℕ_discrete e.thread_id t) [
  | yes y ↦
      let same : (e.thread_id == t) ≡ true = ground arith in
      let same_key : ((f e).thread_id == q) ≡ (e.thread_id == q) = ap (λ (n : ℕ). n == q) (k e) in
      let same_test : (t == q) ≡ (e.thread_id == q) = ap (λ (n : ℕ). n == q) (sym y) in
      rw (same, same_key, same_test)
        (elim (Bool-cases (e.thread_id == q)) [ inl b ↦ rw b refl | inr b ↦ rw b refl ])
  | no n ↦
      let other : (e.thread_id == t) ≡ false = ground arith in
      rw other (elim (Bool-cases (e.thread_id == q)) [
        | inl b ↦ let apart : (t == q) ≡ false = ground arith in rw (b, apart) refl
        | inr b ↦ rw (b, find_entry-change_entry entries t q f k) refl
      ])
]

pub wake_for_close-thread : KeepsThread wake_for_close
unfolding wake_for_close release_gate
wake_for_close-thread e = ground arith

pub find_entry-wake_all :
    (entries : List Entry) (q : ℕ)
    → find_entry (wake_all entries) q ≡ changed wake_for_close (find_entry entries q)
unfolding find_entry wake_all
find_entry-wake_all [] q = refl
find_entry-wake_all (e ∷ entries) q =
    let same_key : ((wake_for_close e).thread_id == q) ≡ (e.thread_id == q) =
      ap (λ (n : ℕ). n == q) (wake_for_close-thread e) in
    rw (same_key, find_entry-wake_all entries q)
      (elim (Bool-cases (e.thread_id == q)) [ inl b ↦ rw b refl | inr b ↦ rw b refl ])
