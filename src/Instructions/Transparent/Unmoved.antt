-- ===== src/Instructions/Transparent/Unmoved.antt =====
-- A thread that is in its space, at its counter and in its calls.
use retrace_cpython.Base.{
  ℕ, ◌≡◌, refl, ◌∙◌, arith, ◌==◌, if◌then◌else◌, Bool, true, false, Option, none, some, List, inl,
  inr, Bool-cases,
}
use retrace_cpython.Spaces.{Scope, ThreadState}
use retrace_cpython.Spaces.Scopes.Restore.{SameScopes, no_scopes, same_scope}
use retrace_cpython.Instructions.{Interp, Arguments, Python, ident_object, thread_ident_object}
use retrace_cpython.Instructions.Transparent.{SameScopes-refl}

-- A callback keeps the scopes of the calls in progress.
abbrev pub IsScoped : Python → Type 0
IsScoped python =
    (callback : ℕ) (arguments : Arguments) (interp : Interp)
    → SameScopes interp.current.scopes (python callback arguments interp).0.current.scopes

-- The thread is in its space, at its counter and in its calls.
pub record Unmoved (t u : ThreadState) : Type 0 where
  pub active : u.thread_callback_active ≡ t.thread_callback_active
  pub current : u.current_space ≡ t.current_space
  pub inherited : u.inherited_space_id ≡ t.inherited_space_id
  pub pointer : u.call_ordinal_ptr ≡ t.call_ordinal_ptr
  pub scopes : SameScopes t.scopes u.scopes

pub SameScopes-trans : {a b c : List Scope} → SameScopes a b → SameScopes b c → SameScopes a c
SameScopes-trans no_scopes no_scopes = no_scopes
SameScopes-trans (same_scope n le rest) (same_scope m le' rest') =
    same_scope m (omega (arith, le, le')) (SameScopes-trans rest rest')

pub Unmoved-refl : (t : ThreadState) → Unmoved t t
Unmoved-refl t = record {
  active = refl;
  current = refl;
  inherited = refl;
  pointer = refl;
  scopes = SameScopes-refl t.scopes;
}

pub Unmoved-trans : {t u v : ThreadState} → Unmoved t u → Unmoved u v → Unmoved t v
Unmoved-trans a b = record {
  active = b.active ∙ a.active;
  current = b.current ∙ a.current;
  inherited = b.inherited ∙ a.inherited;
  pointer = b.pointer ∙ a.pointer;
  scopes = SameScopes-trans a.scopes b.scopes;
}

-- What holds on both branches.
pub if_both :
    {A : Type 0} (P : A → Type 0) (b : Bool) {x y : A}
    → (b ≡ true → P x)
    → (b ≡ false → P y)
    → P (if b then x else y)
if_both P true on_true on_false = on_true refl
if_both P false on_true on_false = on_false refl

object-Unmoved : (t : ThreadState) (made o : Option ℕ) → Unmoved t (ident_object t made o).0
unfolding ident_object
object-Unmoved t made (some ident) = Unmoved-refl t
object-Unmoved t none none = Unmoved-refl t
object-Unmoved t (some ident) none = record {
  active = refl;
  current = refl;
  inherited = refl;
  pointer = refl;
  scopes = SameScopes-refl t.scopes;
}

pub ident-Unmoved : (t : ThreadState) (made : Option ℕ) → Unmoved t (thread_ident_object made t).0
unfolding thread_ident_object
ident-Unmoved t made = elim (Bool-cases (t.identity.retrace_thread_id == 0)) [
  | inl y ↦ rw y (Unmoved-refl t)
  | inr n ↦ rw n (object-Unmoved t made t.thread_id_object)
]
