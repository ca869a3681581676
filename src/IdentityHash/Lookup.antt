-- ===== src/IdentityHash/Lookup.antt =====
-- `_PyRetrace_LookupIdentityHash` reads what the slots hold.
use retrace_cpython.Base.{ℕ, ◌≡◌, ◌≢◌, sym, ◌∙◌, arith, ◌<◌, none, some, done, inl, inr, ℕ_discrete}
use retrace_cpython.IdentityHash.Entry.Laws.{IsPointer}
use retrace_cpython.IdentityHash.Table.{Table}
use retrace_cpython.IdentityHash.Operations.{lookup_identity_hash}
use retrace_cpython.IdentityHash.Scan.{scan-present, scan-absent, slot_cases, all_empty}
use retrace_cpython.IdentityHash.Invariant.{key_at, value_at, size, IsTable, view}
use retrace_cpython.IdentityHash.Probe.{probe-found, probe-missing}

module _ {t : Table} (ok : IsTable t) {q : ℕ} (nonzero : q ≢ 0) where
  pub view_found : (i : ℕ) → i < size t → key_at t i ≡ q → view t q ≡ some (value_at t i)
  unfolding view
  view_found i ri e =
      scan-present (key_at t) (value_at t) q (size t) i ri e
        (λ j rj f. ok.robin.unique j i rj ri (λ z. nonzero (sym f ∙ z)) (f ∙ sym e))

  pub view_missing : ((i : ℕ) → i < size t → key_at t i ≢ q) → view t q ≡ none
  unfolding view
  view_missing missing = scan-absent (key_at t) (value_at t) q (size t) missing

  pub view-unused : t.used ≡ 0 → view t q ≡ none
  view-unused e =
      view_missing
        λ i ri f. nonzero (sym f ∙ all_empty (size t) (key_at t) (sym ok.counted ∙ e) i ri)

module _ {t : Table} (ok : IsTable t) (room : t.used < size t) where
  -- In a well-formed table with an empty slot, the lookup of an address ends and returns what a look at every slot finds.
  pub lookup-view :
      (q : ℕ) → IsPointer q → q ≢ 0 → lookup_identity_hash (some t) q ≡ done (view t q)
  unfolding lookup_identity_hash
  lookup-view q pointer nonzero = elim (ℕ_discrete t.used 0) [
    | yes e ↦ ground (arith, view-unused ok nonzero e)
    | no e ↦ elim (slot_cases (key_at t) (value_at t) q (size t)) [
      | inl (i, ri, f) ↦
          ground (arith, view_found ok nonzero i ri f, probe-found ok room pointer nonzero i ri f)
      | inr missing ↦
          ground
            (arith, view_missing ok nonzero missing, probe-missing ok room pointer nonzero missing)
    ]
  ]
