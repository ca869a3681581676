-- ===== src/Spaces/Growth/Steps.antt =====
-- Each step of a thread in a space keeps it linked, and moves its place on or leaves it.
use retrace_cpython.Base.{
  ℕ, ◌≡◌, refl, sym, ◌∙◌, ap, subst, arith, true, false, Option, none, some, List, ◌∷◌,
}
use retrace_cpython.Frames.{
  Frame, Space, Counter, frame_counter, in_space, counts_in, frame_is_visible,
}
use retrace_cpython.Coordinates.Fill.{coordinates}
use retrace_cpython.Coordinates.Order.{Before, later}
use retrace_cpython.Coordinates.Order.Steps.{Before-extended}
use retrace_cpython.Spaces.{ThreadState, has_id}
use retrace_cpython.Spaces.Activation.{activated, enter_depth, with_state}
use retrace_cpython.Spaces.Writes.{Apart, another, count_of, read-write_space}
use retrace_cpython.Spaces.Linked.{
  inside, Linked, settled, starting, coordinates-outside, coordinates-inside, counts_in-outside,
}
use retrace_cpython.Spaces.Growth.{location, RunsIn}
use retrace_cpython.Spaces.Growth.Enter.{entered}
use retrace_cpython.Spaces.Growth.Base.{
  IsBase-is_base, IsBase-rewritten, count_of-rewritten, IsBase-frames, count_of-frames,
}
use retrace_cpython.Spaces.Growth.Alike.{
  Alike, counts_in-Alike, Apart-parts, Apart-Alike, Linked-Alike, Linked-inactive,
}

pub Before-equal : {xs xs' ys ys' : List ℕ} → xs ≡ xs' → ys ≡ ys' → Before xs' ys' → Before xs ys
Before-equal {xs' = xs'} {ys = ys} e f b =
    subst (λ (zs : List ℕ). Before zs ys) (sym e) (subst (λ (zs : List ℕ). Before xs' zs) (sym f) b)

module _ {base : Counter} {s : ℕ} {t : ThreadState} (r : RunsIn base s t) where
  -- Other frames, linked to the same counter.
  pub RunsIn-frames :
      {frames : List Frame}
      → Apart frames
      → Linked base s t.call_ordinal_ptr frames
      → RunsIn base s (record t { frames = frames })
  RunsIn-frames {frames} apart linked = record {
    current = r.current;
    resolved = r.resolved;
    based = IsBase-frames t frames base r.based;
    apart = apart;
    linked = linked;
  }

  pub location-frames :
      (frames : List Frame)
      → location base s (record t { frames = frames })
        ≡ count_of t (some base) ∷ coordinates frames s
  location-frames frames =
      ap (λ (n : ℕ). n ∷ coordinates frames s)
        (count_of-frames t frames base (IsBase-is_base t base r.based))

  module _ {frame : Frame} {frames : List Frame} (top : t.frames ≡ frame ∷ frames) where
    pub top-Apart : Apart (frame ∷ frames)
    top-Apart = subst Apart top r.apart

    pub top-Linked : Linked base s t.call_ordinal_ptr (frame ∷ frames)
    top-Linked = subst (λ (fs : List Frame). Linked base s t.call_ordinal_ptr fs) top r.linked

    pub location-top : location base s t ≡ count_of t (some base) ∷ coordinates (frame ∷ frames) s
    location-top = ap (λ (fs : List Frame). count_of t (some base) ∷ coordinates fs s) top

    -- The thread after the activation of its newest frame.
    pub entered-RunsIn :
        Linked base s
          (some (frame_counter frame.address))
          (with_state (activated s t.call_ordinal_ptr) frame ∷ frames)
        → RunsIn base s (entered s t frame frames)
    entered-RunsIn linked =
        let (free, rest) = Apart-parts top-Apart in
        record {
          current = r.current;
          resolved =
              read-write_space s enter_depth (λ space. refl)
                (λ (o : Option Space). has_id o t.inherited_space_id) (λ space. refl) t.spaces s
              ∙ r.resolved;
          based =
              IsBase-rewritten s enter_depth (λ space. refl) (λ space. refl) t
                (with_state (activated s t.call_ordinal_ptr) frame ∷ frames)
                (some (frame_counter frame.address)) base r.based;
          apart = another free rest;
          linked = linked;
        }

    pub entered-location :
        location base s (entered s t frame frames)
        ≡ count_of t (some base)
          ∷ coordinates (with_state (activated s t.call_ordinal_ptr) frame ∷ frames) s
    entered-location =
        ap
          (λ (n : ℕ).
            n ∷ coordinates (with_state (activated s t.call_ordinal_ptr) frame ∷ frames) s)
          (count_of-rewritten s enter_depth (λ space. refl) (λ space. refl) t
            (with_state (activated s t.call_ordinal_ptr) frame ∷ frames)
            (some (frame_counter frame.address)) base (IsBase-is_base t base r.based))

    -- What the step of a frame that is not counted leaves.
    pub unseen :
        {frame' : Frame}
        → counts_in frame s ≡ false
        → Alike frame frame'
        → RunsIn base s (record t { frames = frame' ∷ frames })
          × (location base s t ≡ location base s (record t { frames = frame' ∷ frames }))
    unseen {frame'} hidden a = (
      RunsIn-frames (Apart-Alike a top-Apart) (Linked-Alike a top-Linked),
      location-top
          ∙ ap (λ (cs : List ℕ). count_of t (some base) ∷ cs)
              (coordinates-outside frame frames s hidden
                ∙ sym (coordinates-outside frame' frames s (counts_in-Alike s a ∙ hidden)))
          ∙ sym (location-frames (frame' ∷ frames)),
    )

    -- A frame in no space goes.
    pub unlinked :
        frame.retrace.space ≡ none
        → RunsIn base s (record t { frames = frames })
          × (location base s t ≡ location base s (record t { frames = frames }))
    unlinked inactive =
        let out = ap (λ (o : Option ℕ). in_space o s) inactive in
        (
          RunsIn-frames ((Apart-parts top-Apart).1) (settled (Linked-inactive inactive top-Linked)),
          location-top
              ∙ ap (λ (cs : List ℕ). count_of t (some base) ∷ cs)
                  (coordinates-outside frame frames s (counts_in-outside frame s out))
              ∙ sym (location-frames frames),
        )

    module _ (inactive : frame.retrace.space ≡ none) where
      pub inactive-location : location base s t ≡ count_of t (some base) ∷ coordinates frames s
      inactive-location =
          location-top
          ∙ ap (λ (cs : List ℕ). count_of t (some base) ∷ cs)
              (coordinates-outside frame frames s
                (counts_in-outside frame s (ap (λ (o : Option ℕ). in_space o s) inactive)))

      -- An activation before the frame is complete.
      pub entered_incomplete :
          frame.incomplete ≡ true
          → frame.owned_by_cstack ≡ false
          → RunsIn base s (entered s t frame frames)
            × (location base s t ≡ location base s (entered s t frame frames))
      unfolding counts_in frame_is_visible
      entered_incomplete incomplete owned =
          let here : in_space (some s) s ≡ true = ground arith in
          let hidden : counts_in (with_state (activated s t.call_ordinal_ptr) frame) s ≡ false =
            ground (arith, incomplete) in
          (
            entered-RunsIn
                (starting here incomplete owned refl (Linked-inactive inactive top-Linked)),
            inactive-location
                ∙ ap (λ (cs : List ℕ). count_of t (some base) ∷ cs)
                    (sym (
                      coordinates-outside (with_state (activated s t.call_ordinal_ptr) frame) frames
                        s hidden))
                ∙ sym entered-location,
          )

      -- An activation of a complete frame.
      pub entered_complete :
          frame.incomplete ≡ false
          → frame.owned_by_cstack ≡ false
          → RunsIn base s (entered s t frame frames)
            × Before (location base s t) (location base s (entered s t frame frames))
      unfolding counts_in frame_is_visible
      entered_complete complete owned =
          let active = with_state (activated s t.call_ordinal_ptr) frame in
          let shown : counts_in active s ≡ true = ground (arith, complete, owned) in
          (
            entered-RunsIn (settled (inside shown refl (Linked-inactive inactive top-Linked))),
            Before-equal inactive-location
                (entered-location
                  ∙ ap (λ (cs : List ℕ). count_of t (some base) ∷ cs)
                      (coordinates-inside active frames s shown))
                (later refl (Before-extended (coordinates frames s) _ _)),
          )
