-- ===== src/Prelude/Order.antt =====
-- Remainders by a modulus that is passed at most once, as the ring buffers compute them.
use Prim.Native.Nat.{ℕ, ◌+◌, ◌-◌, ◌*◌, ◌%◌, ◌≤◌, ◌<◌}
use mathlib.Core.Path.{◌≡◌}
use mathlib.Core.Logic.{◌⊎◌, inl, inr}
use native.Mathlib.Decide.{dec_lt}
use native.Mathlib.Nat.{mod-eq_of_lt, mod-eq-sub-mod}
use native.Mathlib.Omega.{arith}

-- An index that runs past the end of a ring of `m` slots at most once.
pub mod_ring : (k m : ℕ) → k < m + m → ((k < m) × (k % m ≡ k)) ⊎ ((m ≤ k) × (k % m + m ≡ k))
mod_ring k m h = elim (dec_lt k m) [
  | yes p ↦ inl (p, mod-eq_of_lt p)
  | no p ↦ inr (
    omega arith,
    omega (
      arith,
      mod-eq-sub-mod {n = k} {m = m} (omega arith),
      mod-eq_of_lt {n = k - m} {m = m} (omega arith),
    ),
  )
]

pub mul_le : (n a b : ℕ) → a ≤ b → n * a ≤ n * b
mul_le n a b h = grind arith
