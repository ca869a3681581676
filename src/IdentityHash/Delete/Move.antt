-- ===== src/IdentityHash/Delete/Move.antt =====
-- One round of the backward shift: the next entry moves into the hole, which moves on.
use retrace_cpython.Base.{
  ℕ, ◌≡◌, ◌≢◌, sym, ap, ◌∙◌, fun_ext, arith, ◌+◌, ◌-◌, ◌<◌, ◌==◌, if◌then◌else◌, some, get_or, set,
  get_or-set, length-set, inl, inr, ℕ_discrete,
}
use retrace_cpython.IdentityHash.Entry.{make_entry}
use retrace_cpython.IdentityHash.Entry.Laws.{IsPointer, entry_key-make_entry, entry_key-IsPointer}
use retrace_cpython.IdentityHash.Table.{Table}
use retrace_cpython.IdentityHash.Ring.{dist, next, home_index-lt}
use retrace_cpython.IdentityHash.Ring.Steps.{next-lt, next-ne}
use retrace_cpython.IdentityHash.Scan.{
  update, update_cases, occupied-move, scan-present, scan-absent, slot_cases,
}
use retrace_cpython.IdentityHash.Robin.{far}
use retrace_cpython.IdentityHash.Robin.Shift.{shifted, far-shifted, shift-Hole}
use retrace_cpython.IdentityHash.Invariant.{
  key_at, value_at, size, home, IsCoded, make_entry-IsCoded,
}
use retrace_cpython.IdentityHash.Delete.Gap.{Holed, remaining, holed_view, remaining-next, big}

module _ {t : Table} {hole : ℕ} (h : Holed t hole) where
  abbrev pub source : ℕ
  source = next (size t) hole

  -- The probe length of the entry that moves.
  abbrev pub length_there : ℕ
  length_there = far (size t) (home t.mask) (key_at t) source

  abbrev pub moved : Table
  moved = record t {
    keys = set t.keys hole (make_entry (key_at t source) (length_there - 1));
    values = set t.values hole (value_at t source);
  }

  module _ (held : key_at t source ≢ 0) (away : 0 < length_there) where
    rs : source < size t
    rs = next-lt h.inside

    ne : source ≢ hole
    ne = next-ne h.inside (omega (arith, big h))

    code : IsCoded t.mask source (get_or t.keys source 0)
    code = h.coded source rs ne

    pointer : IsPointer (key_at t source)
    pointer = entry_key-IsPointer code.word

    word-moved :
        (j : ℕ)
        → get_or moved.keys j 0
          ≡ update (λ j. get_or t.keys j 0) hole (make_entry (key_at t source) (length_there - 1)) j
    word-moved j = get_or-set t.keys hole j _ 0 (rw h.keys_length h.inside)

    value_at-moved : (j : ℕ) → value_at moved j ≡ update (value_at t) hole (value_at t source) j
    value_at-moved j = get_or-set t.values hole j _ 0 (rw h.values_length h.inside)

    pub key_at-moved : (j : ℕ) → key_at moved j ≡ update (key_at t) hole (key_at t source) j
    key_at-moved j =
        rw (word-moved j) (ground (arith, entry_key-make_entry (length_there - 1) pointer))

    remaining-moved :
        remaining moved source ≡ shifted (home t.mask) (home_index-lt h.cap) (big h) h.inside h.gap
    remaining-moved = fun_ext λ j. ground (arith, key_at-moved j, remaining-next h)

    pub nearer : dist (size t) (home t.mask (key_at t source)) hole + 1 ≡ length_there
    nearer = rw (remaining-next h) at (
        far-shifted (home t.mask) (home_index-lt h.cap) (big h) h.inside h.gap
          (rw (remaining-next h) away))

    pub moved-Holed : Holed moved source
    moved-Holed = record {
      cap = h.cap;
      keys_length = length-set t.keys hole _ ∙ h.keys_length;
      values_length = length-set t.values hole _ ∙ h.values_length;
      inside = rs;
      coded = λ j rj apart. rw (word-moved j) (
          update_cases (IsCoded t.mask j) (λ j. get_or t.keys j 0) hole _ j
            (λ e. rw (← e) (
              make_entry-IsCoded {i = hole} (length_there - 1) pointer held
                (omega (arith, nearer))))
            (λ e. h.coded j rj (λ f. e (sym f))));
      gap = rw remaining-moved (
          shift-Hole (home t.mask) (home_index-lt h.cap) (big h) h.inside h.gap
            (rw (remaining-next h) held) (rw (remaining-next h) away));
      counted = rw remaining-moved (
          h.counted
          ∙ sym (
              occupied-move (size t) (remaining t hole) hole source h.inside rs (λ e. ne (sym e))
                h.gap.empty));
      threshold = h.threshold;
    }

    -- The slot of a key after the move.
    abbrev landing : ℕ → ℕ
    landing i = if source == i then hole else i

    -- A key that is left in the table before the move is in one slot after it, with its value.
    lands :
        {q i : ℕ}
        → q ≢ 0
        → i < size t
        → remaining t hole i ≡ q
        → (landing i < size t)
          × (remaining moved source (landing i) ≡ q)
          × (value_at moved (landing i) ≡ value_at t i)
    lands {q} {i} nz ri e = elim (ℕ_discrete source i) [
      | yes f ↦ (
        ground (arith, h.inside),
        ground (arith, key_at-moved hole, ne, remaining-next h),
        ground (arith, value_at-moved hole),
      )
      | no f ↦ (
        ground arith,
        ground (arith, key_at-moved i, h.gap.empty),
        ground (arith, value_at-moved i, h.gap.empty),
      )
    ]

    stays_away :
        {q : ℕ}
        → ((i : ℕ) → i < size t → remaining t hole i ≢ q)
        → (j : ℕ) → j < size t
        → q ≢ 0
        → remaining moved source j ≢ q
    stays_away missing j rj nz =
        ground (arith, key_at-moved j, remaining-next h, missing j rj, missing source rs)

    pub holed_view-moved : (q : ℕ) → q ≢ 0 → holed_view moved source q ≡ holed_view t hole q
    unfolding holed_view
    holed_view-moved q nz = elim (slot_cases (remaining t hole) (value_at t) q (size t)) [
      | inl (i, ri, e) ↦
          let (inside, key, value) = lands nz ri e in
          scan-present (remaining moved source) (value_at moved) q (size t) (landing i) inside key
            (λ j rj f.
              moved-Holed.gap.unique j (landing i) rj inside (λ z. nz (sym f ∙ z)) (f ∙ sym key))
          ∙ ap some value
          ∙ sym (
              scan-present (remaining t hole) (value_at t) q (size t) i ri e
                (λ j rj f. h.gap.unique j i rj ri (λ z. nz (sym f ∙ z)) (f ∙ sym e)))
      | inr missing ↦
          scan-absent (remaining moved source) (value_at moved) q (size t)
            (λ j rj. stays_away missing j rj nz)
          ∙ sym (scan-absent (remaining t hole) (value_at t) q (size t) missing)
    ]
