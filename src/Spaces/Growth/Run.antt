-- ===== src/Spaces/Growth/Run.antt =====
-- A thread that runs in a space never comes to a place that it has been at before.
use retrace_cpython.Base.{
  ℕ, zero, suc, ◌≡◌, refl, sym, ◌∙◌, ap, subst, arith, Bool, true, false, Option, none, some, List,
  ◌∷◌,
}
use retrace_cpython.Frames.{Frame, Counter, in_space}
use retrace_cpython.Coordinates.Order.{Before}
use retrace_cpython.Coordinates.Order.Steps.{Before-trans}
use retrace_cpython.Spaces.{ThreadState}
use retrace_cpython.Spaces.Activation.{frame_at}
use retrace_cpython.Spaces.Linked.{
  Linked, settled, starting, outside, coordinates-outside, counts_in-outside,
}
use retrace_cpython.Spaces.Writes.{another, count_of}
use retrace_cpython.Spaces.Growth.{
  location, RunsIn, Hidden, links, unlinks, activates_incomplete, begins_unseen, Shown, activates,
  completes, begins, deactivates, Runs, stays, hidden, shown, newest_complete,
}
use retrace_cpython.Spaces.Growth.Enter.{activate_frame-eq}
use retrace_cpython.Spaces.Growth.Alike.{begin_visible-Alike}
use retrace_cpython.Spaces.Growth.Steps.{
  RunsIn-frames, location-frames, unseen, unlinked, entered_incomplete, entered_complete,
}
use retrace_cpython.Spaces.Growth.Moves.{completed, begun}
use retrace_cpython.Spaces.Growth.Left.{left-Onwards}

abbrev pub Stays : Counter → ℕ → ThreadState → ThreadState → Type 0
Stays base s t u = RunsIn base s u × (location base s t ≡ location base s u)

abbrev pub GoesOn : Counter → ℕ → ThreadState → ThreadState → Type 0
GoesOn base s t u = RunsIn base s u × Before (location base s t) (location base s u)

-- A frame in no space on top of complete frames.
link-Linked :
    {base : Counter} {s : ℕ} {ptr : Option Counter} (frame : Frame) {frames : List Frame}
    → newest_complete frames ≡ true
    → in_space frame.retrace.space s ≡ false
    → Linked base s ptr frames
    → Linked base s ptr (frame ∷ frames)
link-Linked frame complete out (settled c) = settled (outside out c)
link-Linked frame complete out (starting here incomplete owned e c) = absurd (ground arith)

linked_step :
    {base : Counter} {s : ℕ} {t : ThreadState} (frame : Frame)
    → RunsIn base s t
    → frame_at t.frames frame.address ≡ none
    → newest_complete t.frames ≡ true
    → frame.retrace.space ≡ none
    → Stays base s t (record t { frames = frame ∷ t.frames })
linked_step {base} {s} {t} frame r free complete inactive =
    let out = ap (λ (o : Option ℕ). in_space o s) inactive in
    (
      RunsIn-frames r (another free r.apart) (link-Linked frame complete out r.linked),
      ap (λ (cs : List ℕ). count_of t (some base) ∷ cs)
            (sym (coordinates-outside frame t.frames s (counts_in-outside frame s out)))
          ∙ sym (location-frames r (frame ∷ t.frames)),
    )

pub Hidden-Stays :
    {base : Counter} {s : ℕ} {t u : ThreadState} → Hidden s t u → RunsIn base s t → Stays base s t u
Hidden-Stays (links t frame free complete inactive) r = linked_step frame r free complete inactive
Hidden-Stays (unlinks t top inactive) r = unlinked r top inactive
Hidden-Stays {base} {s} (activates_incomplete t calloc top inactive incomplete owned) r =
    subst (λ (u : ThreadState). Stays base s t u)
      (sym (
        ap (λ (p : ThreadState × Bool). p.0)
          (activate_frame-eq calloc t r.current r.resolved top inactive)))
      (entered_incomplete r top inactive incomplete owned)
Hidden-Stays (begins_unseen t {frame} lasti bias top out) r =
    unseen r top out (begin_visible-Alike frame lasti bias)

pub Shown-GoesOn :
    {base : Counter} {s : ℕ} {t u : ThreadState} → Shown s t u → RunsIn base s t → GoesOn base s t u
Shown-GoesOn {base} {s} (activates t calloc top inactive complete owned) r =
    subst (λ (u : ThreadState). GoesOn base s t u)
      (sym (
        ap (λ (p : ThreadState × Bool). p.0)
          (activate_frame-eq calloc t r.current r.resolved top inactive)))
      (entered_complete r top inactive complete owned)
Shown-GoesOn (completes t top here incomplete owned) r = completed r top here incomplete owned
Shown-GoesOn (begins t lasti bias top counts grows) r = begun r top lasti bias counts grows
Shown-GoesOn (deactivates t top active small) r = left-Onwards r top active small

-- What the steps of a run that show come to.
abbrev pub Progress : ℕ → List ℕ → List ℕ → Type 0
Progress zero before after = before ≡ after
Progress (suc n) before after = Before before after

after_hidden : (n : ℕ) (xs ys zs : List ℕ) → Progress n xs ys → ys ≡ zs → Progress n xs zs
after_hidden zero xs ys zs p e = p ∙ e
after_hidden (suc n) xs ys zs p e = subst (λ (ls : List ℕ). Before xs ls) e p

after_shown : (n : ℕ) (xs ys zs : List ℕ) → Progress n xs ys → Before ys zs → Before xs zs
after_shown zero xs ys zs p b = subst (λ (ls : List ℕ). Before ls zs) (sym p) b
after_shown (suc n) xs ys zs p b = Before-trans p b

-- While a thread runs in one of its spaces (frames are linked, activated, completed, move on to
-- later instructions, are deactivated and unlinked, and no counter of calls reaches 2 ^ 64), its
-- frames stay linked to each other's counters, and its place in the space (the calls at its
-- base, then its coordinates) stays as it is over the steps that do not show, and comes strictly
-- later in the lexicographic order after one or more steps that show.
pub location-Runs :
    {base : Counter} {s n : ℕ} {t u : ThreadState}
    → Runs s n t u
    → RunsIn base s t
    → RunsIn base s u × Progress n (location base s t) (location base s u)
location-Runs stays r = (r, refl)
location-Runs {n = n} (hidden run step) r =
    let (r', p) = location-Runs run r in
    let (r'', same) = Hidden-Stays step r' in (r'', after_hidden n _ _ _ p same)
location-Runs (shown {n} run step) r =
    let (r', p) = location-Runs run r in
    let (r'', on) = Shown-GoesOn step r' in (r'', after_shown n _ _ _ p on)
