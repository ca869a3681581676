-- ===== src/IdentityHash/Delete/Loop.antt =====
-- The backward shift ends at the next empty slot, or before it.
use retrace_cpython.Base.{
  ℕ, zero, suc, ◌≡◌, ◌≢◌, refl, sym, ap, ◌∙◌, arith, ◌-◌, ◌<◌, get_or, done, inl, inr, ◌⊎◌,
  ℕ_discrete,
}
use retrace_cpython.Words.Arith.{sub64}
use retrace_cpython.IdentityHash.Entry.{entry_key}
use retrace_cpython.IdentityHash.Entry.Laws.{entry_key-zero}
use retrace_cpython.IdentityHash.Table.{Table}
use retrace_cpython.IdentityHash.Insert.{full_psl}
use retrace_cpython.IdentityHash.Operations.{shift_loop}
use retrace_cpython.IdentityHash.Ring.{dist, next, mask-next, home_index-lt, capacity-le}
use retrace_cpython.IdentityHash.Ring.Steps.{next-lt, next-ne, next-dist, dist-lt}
use retrace_cpython.IdentityHash.Invariant.{key_at, size, IsCoded, IsTable, view, full_psl-dist}
use retrace_cpython.IdentityHash.Delete.Gap.{
  Holed, holed_view, big, closed, closed-IsTable, view-closed,
}
use retrace_cpython.IdentityHash.Delete.Move.{
  source, length_there, moved, moved-Holed, holed_view-moved, key_at-moved,
}

-- The finished table reads as the table with the hole.
pub record Closed (t : Table) (hole : ℕ) (t' : Table) : Type 0 where
  pub table : IsTable t'
  pub mask : t'.mask ≡ t.mask
  pub used : t'.used ≡ t.used
  pub reads : (q : ℕ) → q ≢ 0 → view t' q ≡ holed_view t hole q

module _ {t : Table} {hole : ℕ} (h : Holed t hole) (fuel : ℕ) where
  abbrev entry : ℕ
  entry = get_or t.keys (source h) 0

  rs : source h < size t
  rs = next-lt h.inside

  code : IsCoded t.mask (source h) entry
  code = h.coded (source h) rs (next-ne h.inside (omega (arith, big h)))

  psl_there : key_at t (source h) ≢ 0 → full_psl entry (source h) t.mask ≡ length_there h
  psl_there held = full_psl-dist h.cap rs code held

  entry-ne : key_at t (source h) ≢ 0 → entry ≢ 0
  entry-ne held e = held (ap entry_key e ∙ entry_key-zero)

  stops_empty : key_at t (source h) ≡ 0 → shift_loop (suc fuel) t hole (source h) ≡ done (closed h)
  unfolding shift_loop
  stops_empty e = ground (arith, code.empty e)

  stops_home :
      key_at t (source h) ≢ 0
      → length_there h ≡ 0
      → shift_loop (suc fuel) t hole (source h) ≡ done (closed h)
  unfolding shift_loop
  stops_home held e = ground (arith, entry-ne held, psl_there held)

  shorter : 0 < length_there h → sub64 (length_there h) 1 ≡ length_there h - 1
  shorter away =
      omega (arith, dist-lt rs (home_index-lt h.cap (key_at t (source h))), capacity-le h.cap)

  goes_on :
      key_at t (source h) ≢ 0
      → 0 < length_there h
      → shift_loop (suc fuel) t hole (source h)
        ≡ shift_loop fuel (moved h) (source h) (next (size t) (source h))
  unfolding shift_loop
  goes_on held away =
      rw (psl_there held, shorter away, mask-next h.cap (source h) rs)
        (ground (arith, entry-ne held))

  closing : (key_at t (source h) ≡ 0) ⊎ (length_there h ≡ 0) → Closed t hole (closed h)
  closing stop = record {
    table = closed-IsTable h stop;
    mask = refl;
    used = refl;
    reads = λ q _. view-closed h q;
  }

-- With an empty slot ahead the loop ends, and closes the hole.
pub shift-Closed :
    (fuel : ℕ) {t : Table} {hole z : ℕ} (h : Holed t hole)
    → z < size t
    → key_at t z ≡ 0
    → z ≢ hole
    → dist (size t) (source h) z < fuel
    → (t' : Table) × (shift_loop fuel t hole (source h) ≡ done t') × Closed t hole t'
shift-Closed zero h rz e ne lt = absurd (omega arith)
shift-Closed (suc fuel) {t} {hole} {z} h rz e ne lt = elim (ℕ_discrete (key_at t (source h)) 0) [
  | yes empty ↦ (closed h, stops_empty h fuel empty, closing h fuel (inl empty))
  | no held ↦ elim (ℕ_discrete (length_there h) 0) [
    | yes at_home ↦ (closed h, stops_home h fuel held at_home, closing h fuel (inr at_home))
    | no far ↦
        let away : 0 < length_there h = omega (arith, far) in
        let apart : source h ≢ z = λ f. held (ap (key_at t) f ∙ e) in
        let empty : key_at (moved h) z ≡ 0 = ground (arith, key_at-moved h held away z, ne) in
        let (t', run, c) =
          shift-Closed fuel (moved-Holed h held away) rz empty (λ f. apart (sym f))
            (omega (arith, lt, next-dist (next-lt h.inside) rz apart)) in
        (
          t',
          goes_on h fuel held away ∙ run,
          record {
            table = c.table;
            mask = c.mask;
            used = c.used;
            reads = λ q nz. c.reads q nz ∙ holed_view-moved h held away q nz;
          },
        )
  ]
]
