-- ===== src/IdentityHash/Delete/Gap.antt =====
-- A table with a hole: the word in the slot is stale, and the slot counts as empty.
use retrace_cpython.Base.{
  ℕ, ◌≡◌, ◌≢◌, refl, sym, ◌∙◌, fun_ext, arith, ◌+◌, ◌*◌, ◌/◌, ◌<◌, Option, get_or, set, length,
  get_or-set, length-set, ◌⊎◌,
}
use retrace_cpython.IdentityHash.Entry.Laws.{entry_key-zero}
use retrace_cpython.IdentityHash.Table.{Table}
use retrace_cpython.IdentityHash.Ring.{next, IsCapacity, capacity-ge, home_index-lt}
use retrace_cpython.IdentityHash.Ring.Steps.{next-ne}
use retrace_cpython.IdentityHash.Scan.{update, update_cases, scan, occupied, occupied-update}
use retrace_cpython.IdentityHash.Robin.{far}
use retrace_cpython.IdentityHash.Robin.Shift.{Hole, open_hole, close_hole}
use retrace_cpython.IdentityHash.Invariant.{key_at, value_at, size, home, IsCoded, IsTable, view}

-- The keys with the hole emptied, and what they map an address to.
abbrev pub remaining : Table → ℕ → ℕ → ℕ
remaining t hole = update (key_at t) hole 0

unfoldable pub holed_view : Table → ℕ → ℕ → Option ℕ
holed_view t hole q = scan (size t) (remaining t hole) (value_at t) q

pub record Holed (t : Table) (hole : ℕ) : Type 0 where
  pub cap : IsCapacity (size t)
  pub keys_length : length t.keys ≡ size t
  pub values_length : length t.values ≡ size t
  pub inside : hole < size t
  pub coded : (i : ℕ) → i < size t → i ≢ hole → IsCoded t.mask i (get_or t.keys i 0)
  pub gap : Hole (size t) (home t.mask) (remaining t hole) hole
  pub counted : t.used ≡ occupied (size t) (remaining t hole)
  pub threshold : t.resize_at ≡ size t * 5 / 8

zero-IsCoded : (mask i : ℕ) → IsCoded mask i 0
zero-IsCoded mask i = record {
  word = omega arith;
  empty = λ _. refl;
  psl = λ held. absurd (held entry_key-zero);
}

-- Taking a key out of a well-formed table opens a hole.
pub open-Holed :
    {t : Table} {hole used : ℕ}
    → IsTable t
    → hole < size t
    → key_at t hole ≢ 0
    → used + 1 ≡ t.used
    → Holed (record t { used = used }) hole
open-Holed {t} {hole} ok rh held e = record {
  cap = ok.cap;
  keys_length = ok.keys_length;
  values_length = ok.values_length;
  inside = rh;
  coded = λ i ri _. ok.coded i ri;
  gap =
      open_hole (home t.mask) (home_index-lt ok.cap) (omega (arith, capacity-ge ok.cap)) ok.robin
        rh;
  counted = ground (arith, ok.counted, occupied-update (size t) (key_at t) hole 0 rh);
  threshold = ok.threshold;
}

module _ {t : Table} {hole : ℕ} (h : Holed t hole) where
  abbrev pub closed : Table
  closed = record t { keys = set t.keys hole 0 }

  pub big : 2 < size t
  big = omega (arith, capacity-ge h.cap)

  pub remaining-next : remaining t hole (next (size t) hole) ≡ key_at t (next (size t) hole)
  remaining-next = ground (arith, next-ne h.inside (omega (arith, big)))

  word-closed : (j : ℕ) → get_or closed.keys j 0 ≡ update (λ j. get_or t.keys j 0) hole 0 j
  word-closed j = get_or-set t.keys hole j 0 0 (rw h.keys_length h.inside)

  key_at-closed : (j : ℕ) → key_at closed j ≡ remaining t hole j
  key_at-closed j = rw (word-closed j) (ground (arith, entry_key-zero))

  -- The loop may stop where the next entry stands at its home, or the next slot is empty.
  pub closed-IsTable :
      (key_at t (next (size t) hole) ≡ 0)
        ⊎ (far (size t) (home t.mask) (key_at t) (next (size t) hole) ≡ 0)
      → IsTable closed
  closed-IsTable stop = record {
    cap = h.cap;
    keys_length = length-set t.keys hole 0 ∙ h.keys_length;
    values_length = h.values_length;
    coded = λ j rj. rw (word-closed j) (
        update_cases (IsCoded t.mask j) (λ j. get_or t.keys j 0) hole 0 j
          (λ e. zero-IsCoded t.mask j) (λ e. h.coded j rj (λ f. e (sym f))));
    robin =
        rw (fun_ext key_at-closed)
          (close_hole (home t.mask) (home_index-lt h.cap) big h.gap (rw remaining-next stop));
    counted = rw (fun_ext key_at-closed) h.counted;
    threshold = h.threshold;
  }

  pub view-closed : (q : ℕ) → view closed q ≡ holed_view t hole q
  unfolding view holed_view
  view-closed q = rw (fun_ext key_at-closed)
