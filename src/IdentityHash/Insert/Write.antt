-- ===== src/IdentityHash/Insert/Write.antt =====
-- Writing one entry into a well-formed table.
use retrace_cpython.Base.{
  ℕ, ◌≡◌, ◌≢◌, refl, sym, ap, ◌∙◌, fun_ext, arith, ◌+◌, ◌<◌, ◌==◌, if◌then◌else◌, none, some,
  get_or, set, get_or-set, length-set, inl, inr, ℕ_discrete,
}
use retrace_cpython.IdentityHash.Entry.{make_entry}
use retrace_cpython.IdentityHash.Entry.Laws.{IsPointer, entry_key-make_entry}
use retrace_cpython.IdentityHash.Table.{Table}
use retrace_cpython.IdentityHash.Ring.{dist, capacity-ge}
use retrace_cpython.IdentityHash.Scan.{update, update_cases, occupied-update, slot_cases}
use retrace_cpython.IdentityHash.Robin.{far}
use retrace_cpython.IdentityHash.Robin.Place.{Ready, place-Robin}
use retrace_cpython.IdentityHash.Invariant.{
  key_at, value_at, size, home, IsCoded, IsTable, view, make_entry-IsCoded,
}
use retrace_cpython.IdentityHash.Lookup.{view_found, view_missing}

-- The table with the key `k` at probe length `psl` and the value `v` in slot `i`.
abbrev pub written : Table → ℕ → ℕ → ℕ → ℕ → ℕ → Table
written t i k psl v used = record t {
  keys = set t.keys i (make_entry k psl);
  values = set t.values i v;
  used = used;
}

module _ {t : Table} (ok : IsTable t) {i : ℕ} (ri : i < size t) {k : ℕ}
    (pointer : IsPointer k) where
  abbrev pub own_psl : ℕ
  own_psl = dist (size t) (home t.mask k) i

  module _ (v used : ℕ) where
    abbrev pub after : Table
    after = written t i k own_psl v used

    word-written :
        (j : ℕ) → get_or after.keys j 0 ≡ update (λ j. get_or t.keys j 0) i (make_entry k own_psl) j
    word-written j = get_or-set t.keys i j (make_entry k own_psl) 0 (rw ok.keys_length ri)

    pub key_at-written : (j : ℕ) → key_at after j ≡ update (key_at t) i k j
    key_at-written j = rw (word-written j) (ground (arith, entry_key-make_entry own_psl pointer))

    pub value_at-written : (j : ℕ) → value_at after j ≡ update (value_at t) i v j
    value_at-written j = get_or-set t.values i j v 0 (rw ok.values_length ri)

    IsCoded-written : k ≢ 0 → (j : ℕ) → j < size t → IsCoded t.mask j (get_or after.keys j 0)
    IsCoded-written nonzero j rj = rw (word-written j) (
        update_cases (IsCoded t.mask j) (λ j. get_or t.keys j 0) i (make_entry k own_psl) j
          (λ e. rw (← e) (make_entry-IsCoded {i = i} own_psl pointer nonzero refl))
          (λ e. ok.coded j rj))

    -- The entry may stand there if the slot before allows it and the old entry is nearer.
    pub written-IsTable :
        k ≢ 0
        → ((j : ℕ) → j < size t → key_at t j ≢ k)
        → Ready (size t) (home t.mask) (key_at t) k i
        → (key_at t i ≢ 0 → far (size t) (home t.mask) (key_at t) i < own_psl)
        → used + (if key_at t i == 0 then 0 else 1) ≡ t.used + 1
        → IsTable after
    written-IsTable nonzero fresh ready richer count = record {
      cap = ok.cap;
      keys_length = length-set t.keys i _ ∙ ok.keys_length;
      values_length = length-set t.values i _ ∙ ok.values_length;
      coded = IsCoded-written nonzero;
      robin = rw (fun_ext key_at-written) (
          place-Robin (home t.mask) (omega (arith, capacity-ge ok.cap)) ok.robin ri nonzero fresh
            ready richer);
      counted =
          rw (fun_ext key_at-written)
            (ground (arith, ok.counted, occupied-update (size t) (key_at t) i k ri));
      threshold = ok.threshold;
    }

    module _ (ok' : IsTable after) {q : ℕ} (nonzero : q ≢ 0) where
      view_new : k ≡ q → view after q ≡ some v
      view_new e =
          view_found ok' nonzero i ri (ground (arith, key_at-written i))
          ∙ ap some (ground (arith, value_at-written i))

      view_replaced : k ≢ q → key_at t i ≡ q → view after q ≡ none
      view_replaced e f =
          view_missing ok' nonzero
            λ j rj. ground (arith, key_at-written j, ok.robin.unique i j ri rj, nonzero)

      view_kept : k ≢ q → key_at t i ≢ q → view after q ≡ view t q
      view_kept e f = elim (slot_cases (key_at t) (value_at t) q (size t)) [
        | inl (j, rj, g) ↦ ground (
          arith,
          key_at-written j,
          value_at-written j,
          view_found ok nonzero j rj g,
          view_found ok' nonzero j rj,
        )
        | inr missing ↦
            view_missing ok' nonzero (λ j rj. ground (arith, key_at-written j, missing j rj))
            ∙ sym (view_missing ok nonzero missing)
      ]

      -- The new entry is read under its key; the key that stood there is gone.
      pub view-written :
          view after q ≡ (if k == q then some v else if key_at t i == q then none else view t q)
      view-written = elim (ℕ_discrete k q) [
        | yes e ↦ ground (arith, view_new e)
        | no e ↦ elim (ℕ_discrete (key_at t i) q) [
          | yes f ↦ ground (arith, view_replaced e f)
          | no f ↦ ground (arith, view_kept e f)
        ]
      ]
