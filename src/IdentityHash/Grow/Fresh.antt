-- ===== src/IdentityHash/Grow/Fresh.antt =====
-- `_PyRetrace_NewIdentityHashTable`: the capacity is the least power of two that is wanted, and the
-- new table is empty.
use native.Mathlib.Nat.{pow-suc, pow-le-pow_right}
use retrace_cpython.Base.{
  ℕ, zero, suc, ◌≡◌, ◌≢◌, refl, sym, ap, ◌∙◌, arith, ◌+◌, ◌-◌, ◌*◌, ◌/◌, ◌^◌, ◌<◌, ◌≤◌, none, some,
  Bool, false, ◌&&◌, length, replicate, get_or, length-replicate, get_or-replicate, done, ◌⊎◌, inl,
  inr, dec_lt, Bool-cases,
}
use retrace_cpython.Words.Arith.{word_max, mul64}
use retrace_cpython.IdentityHash.Entry.{entry_key}
use retrace_cpython.IdentityHash.Entry.Laws.{entry_key-zero}
use retrace_cpython.IdentityHash.Table.{
  Table, Malloc, min_capacity, resize_at_for, double_until, block, allocate_table, new_table,
}
use retrace_cpython.IdentityHash.Scan.{none_occupied}
use retrace_cpython.IdentityHash.Invariant.{key_at, size, IsTable}

-- A power of two from which the doubling can go on.
pub record Doubling (order capacity wanted : ℕ) : Type 0 where
  pub power : capacity ≡ 2 ^ order
  pub low : 4 ≤ order
  pub high : order ≤ 63
  pub tight : (capacity ≡ 16) ⊎ (capacity < 2 * wanted)

doubled :
    {order capacity wanted : ℕ}
    → Doubling order capacity wanted
    → capacity < wanted
    → capacity < 2 ^ 63
    → Doubling (suc order) (mul64 capacity 2) wanted
doubled {order} {capacity} {wanted} d lt under = record {
  power = omega (arith, d.power, pow-suc 2 order);
  low = omega (arith, d.low);
  high = omega (arith, d.high, not_last);
  tight = inr (omega arith);
}
  where
    not_last : order ≢ 63
    not_last e =
        let p : capacity ≡ 2 ^ 63 = d.power ∙ ap (λ k. 2 ^ k) e in absurd (omega (arith, p))

-- The doubling ends: it gives up above half the address space, or ends at a power of two that
-- is large enough and less than twice the wanted size (or the least size).
double_ends :
    (fuel : ℕ) {order capacity wanted : ℕ}
    → Doubling order capacity wanted
    → 63 < fuel + order
    → ((double_until fuel capacity wanted ≡ done none) × (2 ^ 63 < wanted))
      ⊎ ((order' : ℕ) × (capacity' : ℕ) × (double_until fuel capacity wanted
            ≡ done (some capacity'))
          × Doubling order' capacity' wanted
          × (wanted ≤ capacity'))
unfolding double_until
double_ends zero d e = absurd (omega (arith, d.high))
double_ends (suc fuel) {order} {capacity} {wanted} d e = elim (dec_lt capacity wanted) [
  | no ge ↦ inr (order, capacity, ground arith, d, omega arith)
  | yes lt ↦ elim (dec_lt (word_max / 2) capacity) [
    | yes over ↦ inl (ground arith, omega arith)
    | no under ↦ elim (double_ends fuel (doubled d lt (omega arith)) (omega arith)) [
      | inl (run, big) ↦ inl (ground arith, big)
      | inr (o, c, run, d', le) ↦ inr (o, c, ground arith, d', le)
    ]
  ]
]

-- A new table has no entry, and its capacity is a power of two.
pub record Fresh (wanted : ℕ) (t : Table) : Type 0 where
  pub table : IsTable t
  pub unused : t.used ≡ 0
  pub large : wanted ≤ size t
  pub tight : (size t ≡ 16) ⊎ (size t < 2 * wanted)

length-block : (contents : ℕ → ℕ) (n : ℕ) → length (block contents n) ≡ n
unfolding block
length-block contents zero = refl
length-block contents (suc n) = ap suc (length-block contents n)

abbrev pub given : Malloc → Bool
given malloc = malloc.table_ok && (malloc.keys_ok && malloc.values_ok)

-- The table that the three blocks make up.
abbrev pub blank : Malloc → ℕ → Table
blank malloc capacity = record {
  mask = capacity - 1;
  used = 0;
  resize_at = resize_at_for capacity;
  keys = replicate capacity 0;
  values = block malloc.contents capacity;
}

module _ (malloc : Malloc) {order capacity wanted : ℕ} (d : Doubling order capacity wanted)
    (fits : capacity < 2 ^ 61) where
  small : order ≤ 60
  small = omega (arith, contra)
    where
      contra : ¬ (61 ≤ order)
      contra p =
          absurd
            (omega (arith, d.power, pow-le-pow_right {n = 2} (omega arith) {i = 61} {j = order} p))

  positive : suc (capacity - 1) ≡ capacity
  positive =
      omega (arith, d.power, pow-le-pow_right {n = 2} (omega arith) {i = 4} {j = order} d.low)

  empty_keys : (i : ℕ) → get_or (blank malloc capacity).keys i 0 ≡ 0
  empty_keys i = get_or-replicate capacity i 0

  no_key : (i : ℕ) → key_at (blank malloc capacity) i ≡ 0
  no_key i = ap entry_key (empty_keys i) ∙ entry_key-zero

  pub blank-IsTable : IsTable (blank malloc capacity)
  unfolding resize_at_for
  blank-IsTable = record {
    cap = record { order = order; power = positive ∙ d.power; low = d.low; high = small };
    keys_length = length-replicate capacity 0 ∙ sym positive;
    values_length = length-block malloc.contents capacity ∙ sym positive;
    coded = λ i ri. record {
      word = omega (arith, empty_keys i);
      empty = λ _. empty_keys i;
      psl = λ held. absurd (held (no_key i));
    };
    robin = record {
      near = λ i ri held. absurd (held (no_key i));
      unique = λ i j ri rj held. absurd (held (no_key i));
    };
    counted = sym (none_occupied _ _ (λ i ri. no_key i));
    threshold = omega (arith, positive);
  }

  blank-Fresh : wanted ≤ capacity → Fresh wanted (blank malloc capacity)
  blank-Fresh le = record {
    table = blank-IsTable;
    unused = refl;
    large = omega (arith, positive);
    tight = omega (arith, positive, d.tight);
  }

-- Why no table is made: too much is wanted, or a block is not given.
abbrev pub Refused : Malloc → ℕ → Type 0
Refused malloc wanted = (2 ^ 60 < wanted) ⊎ (given malloc ≡ false)

starts : (wanted : ℕ) → Doubling 4 min_capacity wanted
starts wanted = record { power = refl; low = omega arith; high = omega arith; tight = inl refl }

allocate_cases :
    (malloc : Malloc) {order capacity wanted : ℕ}
    → Doubling order capacity wanted
    → wanted ≤ capacity
    → ((allocate_table malloc capacity ≡ none) × Refused malloc wanted)
      ⊎ ((t : Table) × (allocate_table malloc capacity ≡ some t) × Fresh wanted t)
unfolding allocate_table
allocate_cases malloc {capacity = capacity} d le = elim (dec_lt (word_max / 8) capacity) [
  | yes over ↦ inl (ground arith, inl (omega (arith, d.tight)))
  | no under ↦ elim (Bool-cases (given malloc)) [
    | inl all ↦ inr (blank malloc capacity, ground arith, blank-Fresh malloc d (omega arith) le)
    | inr some_missing ↦ inl (ground arith, inr some_missing)
  ]
]

-- The construction of a table ends: with NULL only if more than 2 ^ 60 slots are wanted or
-- memory is refused, and otherwise with a well-formed table that has no entry, at least as many
-- slots as wanted, and either sixteen slots or fewer than twice as many as wanted.
pub new_table_cases :
    (malloc : Malloc) (wanted : ℕ)
    → ((new_table malloc wanted ≡ done none) × Refused malloc wanted)
      ⊎ ((t : Table) × (new_table malloc wanted ≡ done (some t)) × Fresh wanted t)
unfolding new_table
new_table_cases malloc wanted = elim (double_ends 64 (starts wanted) (omega arith)) [
  | inl (run, big) ↦ inl (rw run, inl (omega (arith, big)))
  | inr (order, capacity, run, d, le) ↦ elim (allocate_cases malloc d le) [
    | inl (refused, why) ↦ inl (rw (run, refused), why)
    | inr (t, made, fresh) ↦ inr (t, rw (run, made), fresh)
  ]
]
