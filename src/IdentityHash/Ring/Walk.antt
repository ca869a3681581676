-- ===== src/IdentityHash/Ring/Walk.antt =====
-- A loop that walks the ring from a home `h` towards an empty slot `z`: where it stands after
-- `psl` steps, with the fuel that is left.
use retrace_cpython.Base.{ℕ, suc, ◌≡◌, ◌≢◌, refl, arith, ◌+◌, ◌<◌, ◌≤◌}
use retrace_cpython.IdentityHash.Ring.{next, dist}
use retrace_cpython.IdentityHash.Ring.Steps.{next-lt, dist-lt, dist-next, next-dist, dist_self}

pub record At (n h z fuel index psl : ℕ) : Type 0 where
  pub inside : index < n
  pub walked : dist n h index ≡ psl
  pub ahead : psl + dist n index z < n
  pub enough : dist n index z < fuel

module _ {n h z : ℕ} (rh : h < n) (rz : z < n) where
  pub further :
      {fuel index psl : ℕ}
      → At n h z (suc fuel) index psl
      → index ≢ z
      → At n h z fuel (next n index) (psl + 1)
  further {fuel} {index} {psl} at ne = record {
    inside = next-lt at.inside;
    walked = omega (arith, at.ahead, next-dist at.inside rz ne, dist-next at.inside rh, at.walked);
    ahead = omega (arith, at.ahead, next-dist at.inside rz ne);
    enough = omega (arith, at.enough, next-dist at.inside rz ne);
  }

  pub start : At n h z (suc n) h 0
  start = record {
    inside = rh;
    walked = dist_self n h;
    ahead = omega (arith, dist-lt rz rh);
    enough = omega (arith, dist-lt rz rh);
  }

-- A walk on behalf of a key that is no farther from its own home.
pub exchange :
    {n h z fuel index psl : ℕ} (h' : ℕ)
    → At n h z fuel index psl
    → dist n h' index ≤ psl
    → At n h' z fuel index (dist n h' index)
exchange h' at le = record {
  inside = at.inside;
  walked = refl;
  ahead = omega (arith, at.ahead);
  enough = at.enough;
}
