-- ===== src/Threads/Ident/Count.antt =====
-- Counting the threads that answer, and the last one that does.
use retrace_cpython.Base.{
  ℕ, suc, ◌≡◌, ◌≢◌, refl, sym, ◌∙◌, ap, arith, ◌+◌, ◌≤◌, ◌||◌, if◌then◌else◌, Bool, true, false,
  Option, some, List, [], ◌∷◌, ◌⊎◌, inl, inr, Bool-cases, ℕ_discrete,
}
use retrace_cpython.Threads.Unique.{Thread}
use retrace_cpython.Threads.Ident.{same_thread}

-- How many threads answer, and the last of them, after those seen before.
unfoldable pub count : (Thread → Bool) → List Thread → ℕ
count p [] = 0
count p (t ∷ ts) = if p t then suc (count p ts) else count p ts

unfoldable pub last : (Thread → Bool) → List Thread → Option Thread → Option Thread
last p [] before = before
last p (t ∷ ts) before = last p ts (if p t then some t else before)

two-cases :
    (b c : Bool)
    → ((b ≡ true) × (c ≡ true))
      ⊎ ((b ≡ true) × (c ≡ false))
      ⊎ ((b ≡ false) × (c ≡ true))
      ⊎ ((b ≡ false) × (c ≡ false))
two-cases true true = inl (refl, refl)
two-cases true false = inr (inl (refl, refl))
two-cases false true = inr (inr (inl (refl, refl)))
two-cases false false = inr (inr (inr (refl, refl)))

module _ (p q : Thread → Bool) where
  -- Those that answer one way or the other.
  abbrev pub either : Thread → Bool
  either t = p t || q t

  pub count-either-ge :
      (ts : List Thread) → (count p ts ≤ count either ts) × (count q ts ≤ count either ts)
  unfolding count
  count-either-ge [] = (omega arith, omega arith)
  count-either-ge (t ∷ ts) =
      (ground (arith, (count-either-ge ts).0), ground (arith, (count-either-ge ts).1))

  pub count-either-le : (ts : List Thread) → count either ts ≤ count p ts + count q ts
  unfolding count
  count-either-le [] = omega arith
  count-either-le (t ∷ ts) = ground (arith, count-either-le ts)

last-none :
    (p : Thread → Bool) (ts : List Thread) (before : Option Thread)
    → count p ts ≡ 0
    → last p ts before ≡ before
unfolding count last
last-none p [] before e = refl
last-none p (t ∷ ts) before e = elim (Bool-cases (p t)) [
  | inl yes_p ↦ ground arith
  | inr no_p ↦ rw no_p (last-none p ts before (ground arith))
]

-- What the two searches see of the only thread that answers.
abbrev pub Sole :
    (p q : Thread → Bool) → List Thread → Option Thread → Option Thread → Option Thread → Type 0
Sole p q ts a b c =
    ((count p ts ≡ 1) × (count q ts ≡ 0) × (last p ts a ≡ last (either p q) ts c))
    ⊎ ((count p ts ≡ 0) × (count q ts ≡ 1) × (last q ts b ≡ last (either p q) ts c))
    ⊎ ((count p ts ≡ 1)
        × (count q ts ≡ 1)
        × (last p ts a ≡ last (either p q) ts c)
        × (last q ts b ≡ last (either p q) ts c))

-- Nobody in the rest of the list answers.
none_left :
    (p q : Thread → Bool) (ts : List Thread)
    → count (either p q) ts ≡ 0
    → (count p ts ≡ 0) × (count q ts ≡ 0)
none_left p q ts e =
    (omega (arith, (count-either-ge p q ts).0), omega (arith, (count-either-ge p q ts).1))

pub sole :
    (p q : Thread → Bool) (ts : List Thread) (a b c : Option Thread)
    → count (either p q) ts ≡ 1
    → Sole p q ts a b c
unfolding count last
sole p q [] a b c e = absurd (omega arith)
sole p q (t ∷ ts) a b c e = elim (two-cases (p t) (q t)) [
  | inr (inr (inr (np, nq))) ↦ rw (np, nq) (sole p q ts a b c (ground arith))
  | inl (yp, yq) ↦
      let rest : count (either p q) ts ≡ 0 = ground arith in
      let (zp, zq) = none_left p q ts rest in
      rw (yp, yq)
        (inr (
          inr (
            ap suc zp,
            ap suc zq,
            last-none p ts _ zp ∙ sym (last-none (either p q) ts _ rest),
            last-none q ts _ zq ∙ sym (last-none (either p q) ts _ rest),
          )))
  | inr (inl (yp, nq)) ↦
      let rest : count (either p q) ts ≡ 0 = ground arith in
      let (zp, zq) = none_left p q ts rest in
      rw (yp, nq)
        (inl (ap suc zp, zq, last-none p ts _ zp ∙ sym (last-none (either p q) ts _ rest)))
  | inr (inr (inl (np, yq))) ↦
      let rest : count (either p q) ts ≡ 0 = ground arith in
      let (zp, zq) = none_left p q ts rest in
      rw (np, yq)
        (inr (inl (zp, ap suc zq, last-none q ts _ zq ∙ sym (last-none (either p q) ts _ rest))))
]

-- The threads of an interpreter are different objects.
pub data Apart (a : ℕ) : List Thread → Type 0 where
  alone : Apart a []
  besides : {t : Thread} {ts : List Thread} → t.address ≢ a → Apart a ts → Apart a (t ∷ ts)

pub data AllApart : List Thread → Type 0 where
  empty : AllApart []
  next : {t : Thread} {ts : List Thread} → Apart t.address ts → AllApart ts → AllApart (t ∷ ts)

last-Apart :
    (p : Thread → Bool) {a : ℕ} (ts : List Thread) (before : Option Thread)
    → Apart a ts
    → count p ts ≢ 0
    → (t : Thread) × (last p ts before ≡ some t) × (t.address ≢ a)
unfolding count last
last-Apart p [] before h e = absurd (e refl)
last-Apart p (t ∷ ts) before (besides ne h) e = elim (Bool-cases (p t)) [
  | inl y ↦ elim (ℕ_discrete (count p ts) 0) [
    | yes z ↦ (t, rw y (last-none p ts _ z), ne)
    | no nz ↦ rw y (last-Apart p ts (some t) h nz)
  ]
  | inr n ↦ rw n (last-Apart p ts before h (ground arith))
]

differ :
    {x y : Option Thread} {t t' : Thread}
    → x ≡ some t
    → y ≡ some t'
    → t.address ≢ t'.address
    → same_thread x y ≢ true
unfolding same_thread
differ {x} {y} e f ne same = ne (ground (arith, e, f, same))

-- If each search counts one thread and they are the same, only one thread answers.
pub same_one :
    (p q : Thread → Bool) (ts : List Thread) (a b : Option Thread)
    → AllApart ts
    → count p ts ≡ 1
    → count q ts ≡ 1
    → same_thread (last q ts b) (last p ts a) ≡ true
    → count (either p q) ts ≡ 1
unfolding count last
same_one p q [] a b h ep eq same = absurd (omega arith)
same_one p q (t ∷ ts) a b (next apart h) ep eq same = elim (two-cases (p t) (q t)) [
  | inr (inr (inr (np, nq))) ↦
      rw (np, nq) (same_one p q ts a b h (ground arith) (ground arith) (ground arith))
  | inl (yp, yq) ↦ ground (arith, count-either-le p q ts)
  | inr (inl (yp, nq)) ↦
      let zp : count p ts ≡ 0 = ground arith in
      let (t', found, ne) = last-Apart q ts b apart (ground arith) in
      absurd (differ found (last-none p ts (some t) zp) ne (ground arith))
  | inr (inr (inl (np, yq))) ↦
      let zq : count q ts ≡ 0 = ground arith in
      let (t', found, ne) = last-Apart p ts a apart (ground arith) in
      absurd (differ (last-none q ts (some t) zq) found (λ e. ne (sym e)) (ground arith))
]
