-- ===== src/Callbacks/Sound.antt =====
-- When the callbacks of an interpreter are well formed, and what is read of them.
use retrace_cpython.Base.{ℕ, ◌≡◌, refl, arith, if◌then◌else◌, true, false, Option, none, some}
use retrace_cpython.Callbacks.{
  CallbackState, Callbacks, Target, is_some, find_space_callback_state, callback_state_empty,
  some_switch, some_armed, switch_of,
}
use retrace_cpython.Callbacks.Entries.{Distinct, empty_parts}

-- The flags say whether some entry has a callback, and whether some entry's call_at is armed.
pub record IsCallbacks (interp : Callbacks) : Type 0 where
  pub distinct : Distinct interp.space_callbacks
  pub switch : interp.thread_switch_armed ≡ some_switch interp.space_callbacks
  pub extra : interp.call_at_extra_armed ≡ some_armed interp.space_callbacks

-- The call_at of a space that is armed.
abbrev pub armed_of : Option CallbackState → Option Target
armed_of none = none
armed_of (some e) = if e.call_at.armed then some e.call_at else none

abbrev pub armed_in : Callbacks → ℕ → Option Target
armed_in interp q = armed_of (find_space_callback_state interp.space_callbacks q)

none_of : (o : Option ℕ) → is_some o ≡ false → o ≡ none
none_of none h = refl
none_of (some x) h = ground arith

pub switch_blind :
    (e : CallbackState) → callback_state_empty e ≡ true → switch_of (some e) ≡ switch_of none
unfolding switch_of
switch_blind e h = none_of e.thread_switch_callback ((empty_parts e h).0)

pub armed_blind :
    (e : CallbackState) → callback_state_empty e ≡ true → armed_of (some e) ≡ armed_of none
armed_blind e h = rw ((empty_parts e h).1) refl
