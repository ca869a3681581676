-- ===== src/Handoff/Wakeup.antt =====
-- No wake-up is lost: a thread that waits with a permit, or on a closed handoff, can take its gate and return.
use retrace_cpython.Base.{
  ℕ, ◌≡◌, ◌≢◌, refl, sym, ◌∙◌, subst, arith, ◌==◌, ◌||◌, Bool, true, false, Option, some, inl, inr,
  Bool-cases,
}
use retrace_cpython.Handoff.{
  Entry, Handoff, find_entry, close_locked, returns, wait_test, wait_failed, wake_all, hand_to,
}
use retrace_cpython.Handoff.Entries.{changed, find_entry-change_entry, find_entry-wake_all}
use retrace_cpython.Handoff.Steps.{
  Phase, outside, parked, acquired, failed, System, phase_after, changes, shut, enters, Step, enter,
  take_gate, fail, resume, give_up, close, Steps, stays, more, initial,
}
use retrace_cpython.Handoff.Ready.{
  Ready, away, asleep, holding, AllReady, close-Ready, wait_test-Ready, test-thread,
}
use retrace_cpython.Handoff.Enter.{settle, moved, handed, kept_closed}

-- What holds of every system that can be reached.
pub record Awake (s : System) : Type 0 where
  pub ready : AllReady s.handoff.closed s.phase s.handoff.entries

closed_before : (self : Handoff) → self.closed ≡ true → close_locked self ≡ self
unfolding close_locked
closed_before self c = rw c refl

closes_now :
    (self : Handoff)
    → self.closed ≡ false
    → close_locked self ≡ record { closed = true; entries = wake_all self.entries }
unfolding close_locked
closes_now self c = rw c refl

is_waiting :
    {closed : Bool} {p : Phase} {e : Entry}
    → Ready closed p (some e)
    → (p ≢ outside) × (p ≢ failed)
    → e.waiting ≡ true
is_waiting {p = outside} (away n m) (o, f) = absurd (o refl)
is_waiting {p = parked} (away n m) (o, f) = absurd (n refl)
is_waiting {p = acquired} (away n m) (o, f) = absurd (m refl)
is_waiting {p = failed} (away n m) (o, f) = absurd (f refl)
is_waiting (asleep w g) of = w
is_waiting (holding w) of = w

resume-Ready :
    {p : Phase} (closed : Bool) (o : Option Entry) (e : Entry)
    → Ready closed p o
    → p ≡ acquired
    → o ≡ some e
    → Ready closed (phase_after ((wait_test closed e).0)) (changed (λ e. (wait_test closed e).1) o)
resume-Ready {p = ph} closed o e r h f =
    let w =
      is_waiting {p = ph} (subst (λ (o : Option Entry). Ready closed ph o) f r)
        (λ a. ground (arith, h, a), λ a. ground (arith, h, a)) in
    rw f (wait_test-Ready closed e w)

take-Ready :
    {p : Phase} {closed : Bool} (o : Option Entry) (e : Entry)
    → Ready closed p o
    → p ≡ parked
    → o ≡ some e
    → Ready closed acquired (changed shut o)
take-Ready {p = ph} {closed = closed} o e r h f =
    let w =
      is_waiting {p = ph} (subst (λ (o : Option Entry). Ready closed ph o) f r)
        (λ a. ground (arith, h, a), λ a. ground (arith, h, a)) in
    rw f (holding w)

closed_ready :
    {phase : ℕ → Phase} (self : Handoff)
    → AllReady self.closed phase self.entries
    → AllReady (close_locked self).closed phase (close_locked self).entries
closed_ready {phase} self all = elim (Bool-cases self.closed) [
  | inl c ↦
      subst (λ (h : Handoff). AllReady h.closed phase h.entries) (sym (closed_before self c)) all
  | inr c ↦
      subst (λ (h : Handoff). AllReady h.closed phase h.entries) (sym (closes_now self c))
        (λ q. rw (find_entry-wake_all self.entries q) (
          close-Ready
            (subst (λ (b : Bool). Ready b (phase q) (find_entry self.entries q)) c (all q))))
]

Step-Awake : {s s' : System} → Awake s → Step s s' → Awake s'
unfolding wait_failed
Step-Awake {s} a (enter t target m m' p) = record {
  ready =
      subst
        (λ (b : Bool).
          AllReady b (enters s t (hand_to m m' s.handoff target t)).phase
            (enters s t (hand_to m m' s.handoff target t)).handoff.entries)
        (sym (kept_closed m m' s.handoff target t)) (handed m m' s.handoff target t refl a.ready);
}
Step-Awake a (take_gate t e p f g) = record {
  ready = moved _ t shut acquired (λ e. refl) a.ready (take-Ready _ e (a.ready t) p f);
}
Step-Awake a (fail t p) = record {
  ready = settle _ t (λ p. ground arith) (λ p. ground arith) a.ready;
}
Step-Awake {s} a (resume t e p f) = record {
  ready =
      moved s.handoff.entries t (λ e. (wait_test s.handoff.closed e).1) _
        (test-thread s.handoff.closed) a.ready (resume-Ready s.handoff.closed _ e (a.ready t) p f);
}
Step-Awake a (give_up t p) = record {
  ready =
      moved _ t (λ e. (wait_failed e).1) outside (λ e. refl) a.ready
        (away (λ p. ground arith) (λ p. ground arith));
}
Step-Awake {s} a close = record { ready = closed_ready s.handoff a.ready }

initial-Awake : Awake initial
unfolding find_entry
initial-Awake = record { ready = λ q. away (λ p. ground arith) (λ p. ground arith) }

pub reached-Awake : {s : System} → Steps initial s → Awake s
reached-Awake stays = initial-Awake
reached-Awake (more steps step) = Step-Awake (reached-Awake steps) step

-- The thread gets its gate and returns from `to`.
pub record Returns (s : System) (t : ℕ) : Type 0 where
  pub between : System
  pub after : System
  pub first : Step s between
  pub second : Step between after
  pub out : after.phase t ≡ outside

leaves :
    (closed : Bool) (e : Entry) → (e.permit || closed) ≡ true → (wait_test closed e).0 ≡ returns
unfolding wait_test
leaves closed e c = ground arith

gate_opened :
    {closed : Bool} {p : Phase} {e : Entry}
    → Ready closed p (some e)
    → p ≡ parked
    → (e.permit || closed) ≡ true
    → e.gate_open ≡ true
gate_opened (away n m) h c = absurd (n h)
gate_opened (asleep w g) h c = g c
gate_opened (holding w) h c = ground (arith, h)

Returns-now :
    {s : System} (t : ℕ) (e : Entry)
    → s.phase t ≡ parked
    → find_entry s.handoff.entries t ≡ some e
    → e.gate_open ≡ true
    → (e.permit || s.handoff.closed) ≡ true
    → Returns s t
Returns-now {s} t e p f g c =
    let s' = changes s t shut acquired in
    let here : (t == t) ≡ true = ground arith in
    record {
      between = s';
      after =
          changes s' t (λ e. (wait_test s.handoff.closed e).1)
            (phase_after ((wait_test s.handoff.closed (shut e)).0));
      first = take_gate t e p f g;
      second =
          resume t (shut e) (rw here refl)
            (find_entry-change_entry s.handoff.entries t t shut (λ e. refl) ∙ rw (here, f) refl);
      out = rw (here, leaves s.handoff.closed (shut e) c) refl;
    }

-- In every system reached by threads that enter the handoff, take or fail to take their gates,
-- go on, give up or close it in any order, a thread that waits for its gate while it has a
-- permit, or the handoff is closed, can take its gate at once and then returns.
pub parked-Returns :
    {s : System}
    → Steps initial s
    → (t : ℕ) (e : Entry) → s.phase t ≡ parked
    → find_entry s.handoff.entries t ≡ some e
    → (e.permit || s.handoff.closed) ≡ true
    → Returns s t
parked-Returns {s} steps t e p f c =
    let r =
      subst (λ (o : Option Entry). Ready s.handoff.closed (s.phase t) o) f
        ((reached-Awake steps).ready t) in
    Returns-now t e p f (gate_opened r p c) c
