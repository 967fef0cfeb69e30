-- ===== src/Prelude/Machine.antt =====
-- Machine words and the allocator: what `malloc` and `realloc` answer is an argument of each call.
use Prim.Native.Nat.{ℕ, ◌+◌, ◌-◌, ◌%◌, ◌^◌}
use mathlib.Core.Bool.{Bool, true}

-- `grants n` says whether `n` bytes can be had, `fresh` what new memory holds.
pub record Memory {ℓ} (A : Type ℓ) : Type ℓ where
  pub grants : ℕ → Bool
  pub fresh : ℕ → A

abbrev pub ample {ℓ} : {A : Type ℓ} → A → Memory A
ample a = record { grants = λ n. true; fresh = λ i. a }

-- 2 to the width of `unsigned` and of `size_t`.
abbrev pub u32 : ℕ
u32 = 2 ^ 32

abbrev pub u64 : ℕ
u64 = 2 ^ 64

-- `unsigned` addition and subtraction
abbrev pub add32 : ℕ → ℕ → ℕ
add32 a b = (a + b) % u32

abbrev pub sub32 : ℕ → ℕ → ℕ
sub32 a b = (a + u32 - b) % u32
