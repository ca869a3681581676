-- ===== src/Calls.antt =====
-- The functions of the module with their arguments: cpython-overlay/Modules/retracemodule.c, lines
-- 36 to 169, 274 to 287, 410 to 560, 659 to 763, 907 to 1349, 1430 to 1485 and 1567 to 1619.
pub mod Read
pub mod CallAt
pub mod Functions
pub mod Transfer
mod Tests
use retrace_cpython.Base.{
  ℕ, zero, suc, ◌+◌, ◌-◌, ◌%◌, ◌^◌, ◌==◌, ltb, not, ◌&&◌, ◌||◌, if◌then◌else◌, Bool, true, false,
  Option, none, some, List, [], ◌∷◌, length,
}
use retrace_cpython.Frames.{Frame, Space, space_id_root}
use retrace_cpython.Coordinates.{coordinate_count}
use retrace_cpython.Spaces.{ThreadState, find_thread_space, thread_state_frame}

-- The exceptions that are raised; `api_error` is one that a function of the C API has set.
pub data PyError : Type 0 where
  type_error value_error overflow_error lookup_error runtime_error memory_error api_error : PyError

pub data Result {ℓ} (A : Type ℓ) : Type ℓ where
  ok : A → Result A
  raise : PyError → Result A

infixl 5 ◌>>=◌ ◌>>◌
abbrev pub ◌>>=◌ {ℓ κ} : {A : Type ℓ} {B : Type κ} → Result A → (A → Result B) → Result B
ok a >>= f = f a
raise e >>= f = raise e

abbrev pub ◌>>◌ {ℓ} : {B : Type ℓ} → Result (Unit {0}) → Result B → Result B
m >> k = m >>= λ _. k

abbrev pub guard : Bool → PyError → Result (Unit {0})
guard true e = ok tt
guard false e = raise e

-- What the module uses of Python objects: the test for None and for callables, the conversion of
-- an int to an `unsigned long long`, the items of a sequence, and the address of an object.
pub record Api : Type 1 where
  pub Object : Type 0
  pub is_none : Object → Bool
  pub is_callable : Object → Bool
  pub as_unsigned_long_long : Object → Result ℕ
  pub sequence_items : Object → Result (List Object)
  pub address_of : Object → ℕ

-- The signed argument `drop`.
pub data Ssize : Type 0 where
  nonnegative : ℕ → Ssize
  negative : ℕ → Ssize

module _ (api : Api) where
  open api use {Object, is_none, is_callable, as_unsigned_long_long, sequence_items, address_of}

  unfoldable pub u64_from_object : Object → Result ℕ
  u64_from_object value = as_unsigned_long_long value

  unfoldable pub space_id_from_object : Object → Result ℕ
  unfolding u64_from_object
  space_id_from_object value = if is_none value then ok space_id_root else do
    converted ← as_unsigned_long_long value
    if ltb (2 ^ 32 - 1) converted then raise overflow_error else ok converted

  -- An optional argument; the default is None.
  unfoldable pub space_id_argument : Option Object → Result ℕ
  unfolding space_id_from_object
  space_id_argument none = ok space_id_root
  space_id_argument (some value) = space_id_from_object value

  unfoldable pub convert_items : List Object → Result (List ℕ)
  unfolding u64_from_object
  convert_items [] = ok []
  convert_items (item ∷ items) =
      u64_from_object item >>= λ value. (convert_items items >>= λ values. ok (value ∷ values))

  -- `made` tells whether there is memory for the tuple.
  unfoldable pub tuple_from_sequence : Bool → Object → Result (List ℕ)
  unfolding convert_items
  tuple_from_sequence made sequence = do
    items ← sequence_items sequence
    guard made memory_error
    convert_items items

  -- A callback, or none for None where that is allowed.
  unfoldable pub callback_ref : Object → Bool → Result (Option ℕ)
  callback_ref callback allow_none =
      if allow_none && is_none callback
      then ok none
      else if is_callable callback
      then ok (some (address_of callback))
      else raise type_error

unfoldable pub find_named : List ThreadState → ℕ → Option ThreadState
find_named [] thread_id = none
find_named (tstate ∷ threads) thread_id =
    let rest = find_named threads thread_id in
    if tstate.identity.retrace_thread_id == thread_id then some tstate else rest

unfoldable pub find_thread_state : List ThreadState → ℕ → Option ThreadState
unfolding find_named
find_thread_state threads thread_id = if thread_id == 0 then none else find_named threads thread_id
