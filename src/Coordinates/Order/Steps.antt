-- ===== src/Coordinates/Order/Steps.antt =====
-- The lexicographic order on coordinates under the changes that execution makes to them.
use retrace_cpython.Base.{ℕ, ◌≡◌, refl, ◌∙◌, arith, List, [], ◌∷◌, ◌++◌}
use retrace_cpython.Coordinates.Order.{Before, shorter, smaller, later}

pub Before-extended : (xs : List ℕ) (y : ℕ) (ys : List ℕ) → Before xs (xs ++ y ∷ ys)
Before-extended [] y ys = shorter
Before-extended (x ∷ xs) y ys = later refl (Before-extended xs y ys)

pub Before-under : (xs : List ℕ) {ys zs : List ℕ} → Before ys zs → Before (xs ++ ys) (xs ++ zs)
Before-under [] b = b
Before-under (x ∷ xs) b = later refl (Before-under xs b)

pub Before-trans : {xs ys zs : List ℕ} → Before xs ys → Before ys zs → Before xs zs
Before-trans shorter (smaller h) = shorter
Before-trans shorter (later e b) = shorter
Before-trans (smaller h) (smaller k) = smaller (omega arith)
Before-trans (smaller h) (later e b) = smaller (omega arith)
Before-trans (later e b) (smaller k) = smaller (omega arith)
Before-trans (later e b) (later f c) = later (e ∙ f) (Before-trans b c)

-- No sequence comes before itself.
pub not-Before_self : {xs ys : List ℕ} → xs ≡ ys → ¬ Before xs ys
not-Before_self e shorter = cc
not-Before_self e (smaller h) = ground arith
not-Before_self e (later f b) = not-Before_self (ground arith) b
