-- ===== src/Calls/CallAt/Parsed.antt =====
-- What the arguments of `call_at` come to: retracemodule.c, lines 1221 to 1299.
use retrace_cpython.Base.{
  ℕ, ◌≡◌, ◌≢◌, refl, arith, ◌%◌, ◌==◌, not, ◌&&◌, if◌then◌else◌, Bool, true, false, Option, none,
  some, List, [], ◌∷◌, length, inl, inr, Bool-cases,
}
use retrace_cpython.Callbacks.{Target}
use retrace_cpython.Calls.{
  PyError, type_error, value_error, Result, ok, raise, ◌>>=◌, guard, Api, u64_from_object,
  callback_ref, tuple_from_sequence, space_id_argument,
}
use retrace_cpython.Calls.CallAt.{
  Request, clear, arm, overshoot_argument, arm_request, clear_request, parse_call_at,
}

-- Pairs of an instruction counter and a call ordinal, one at least.
abbrev pub IsPairs : List ℕ → Type 0
IsPairs cs = (length cs ≢ 0) × (length cs % 2 ≡ 0)

-- What the arguments come to.
pub data Parsed : Result Request → Type 0 where
  failed : (e : PyError) → Parsed (raise e)
  clears : (space_id : ℕ) → Parsed (ok (clear space_id))
  requests :
      (space_id : ℕ) (target : Target) (cs : List ℕ)
      → target.armed ≡ true
      → target.coordinates ≡ some cs
      → IsPairs cs
      → Parsed (ok (arm space_id target))

Parsed->>= :
    {A : Type 0} (m : Result A) (f : A → Result Request)
    → ((a : A) → Parsed (f a))
    → Parsed (m >>= f)
Parsed->>= (ok a) f h = h a
Parsed->>= (raise e) f h = failed e

module _ (api : Api) where
  open api use {Object, is_none}

  arm_request-Parsed :
      (made : Bool) (thread sequence callback : Object) (overshoot space : Option Object)
      → Parsed (arm_request api made thread sequence callback overshoot space)
  unfolding arm_request
  arm_request-Parsed made thread sequence callback overshoot space =
      Parsed->>= (u64_from_object api thread) _ λ thread_id.
        Parsed->>= (guard (not (thread_id == 0)) value_error) _ λ nonzero.
          Parsed->>= (callback_ref api callback false) _ λ callback_object.
            Parsed->>= (overshoot_argument api overshoot) _ λ overshoot_object.
              Parsed->>= (space_id_argument api space) _ λ space_id.
                Parsed->>= (tuple_from_sequence api made sequence) _
                  λ cs. pairs_given space_id cs thread_id callback_object overshoot_object
    where
      pairs_given :
          (space_id : ℕ) (cs : List ℕ) (thread_id : ℕ) (callback_object overshoot_object : Option ℕ)
          → Parsed (
              guard (not (length cs == 0) && (length cs % 2 == 0)) value_error >>= λ _. ok (
                arm space_id (record {
                  armed = true;
                  thread_id = thread_id;
                  coordinates = some cs;
                  callback = callback_object;
                  overshoot_callback = overshoot_object;
                })))
      pairs_given space_id cs thread_id callback_object overshoot_object =
          elim (Bool-cases (not (length cs == 0) && (length cs % 2 == 0))) [
            | inl y ↦ rw y (
                requests space_id _ cs refl refl
                  (λ e. absurd (ground (arith, y, e)), ground (arith, y)))
            | inr n ↦ rw n (failed value_error)
          ]

  clear_request-Parsed : (space : Option Object) → Parsed (clear_request api space)
  unfolding clear_request
  clear_request-Parsed space =
      Parsed->>= (space_id_argument api space) _ (λ space_id. clears space_id)

  clear_or_fail :
      (b : Bool) (space : Option Object)
      → Parsed (if b then clear_request api space else raise type_error)
  clear_or_fail true space = clear_request-Parsed space
  clear_or_fail false space = failed type_error

  pub parse_call_at-Parsed :
      (made : Bool) (args : List Object) → Parsed (parse_call_at api made args)
  unfolding parse_call_at
  parse_call_at-Parsed made [] = failed type_error
  parse_call_at-Parsed made (a ∷ []) = clear_or_fail (is_none a) none
  parse_call_at-Parsed made (a ∷ b ∷ []) = clear_or_fail (is_none a) (some b)
  parse_call_at-Parsed made (a ∷ b ∷ c ∷ []) = arm_request-Parsed made a b c none none
  parse_call_at-Parsed made (a ∷ b ∷ c ∷ d ∷ []) = arm_request-Parsed made a b c (some d) none
  parse_call_at-Parsed made (a ∷ b ∷ c ∷ d ∷ e ∷ []) =
      arm_request-Parsed made a b c (some d) (some e)
  parse_call_at-Parsed made (a ∷ b ∷ c ∷ d ∷ e ∷ f ∷ rest) = failed type_error
