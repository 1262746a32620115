-- ===== src/Prelude/Bits.antt =====
-- Bits of an unsigned machine word, by its binary digits. `test_bit m i` is `(m & (1 << i)) != 0`,
-- `set_bit m i` is `m | (1 << i)` and `clear_bit m i` is `m & ~(1 << i)`.
use Prim.Native.Nat.{ℕ, zero, suc, ◌+◌, ◌*◌, ◌/◌, ◌%◌}
use mathlib.Core.Path.{◌≡◌, refl}
use mathlib.Core.Bool.{Bool, true, false}
use native.Mathlib.Omega.{arith}
use turboraft.Prelude.Tests.{◌==◌, if◌then◌else◌}

unfoldable pub test_bit : ℕ → ℕ → Bool
test_bit m zero = m % 2 == 1
test_bit m (suc i) = test_bit (m / 2) i

unfoldable pub set_bit : ℕ → ℕ → ℕ
set_bit m zero = m / 2 * 2 + 1
set_bit m (suc i) = set_bit (m / 2) i * 2 + m % 2

unfoldable pub clear_bit : ℕ → ℕ → ℕ
clear_bit m zero = m / 2 * 2
clear_bit m (suc i) = clear_bit (m / 2) i * 2 + m % 2

-- `1 << i`
unfoldable pub bit : ℕ → ℕ
unfolding set_bit
bit i = set_bit 0 i

half-digit : (a b : ℕ) → b % 2 ≡ b → (a * 2 + b) / 2 ≡ a
half-digit a b h = omega arith

pub test_bit-zero_word : (i : ℕ) → test_bit 0 i ≡ false
unfolding test_bit
test_bit-zero_word zero = refl
test_bit-zero_word (suc i) = test_bit-zero_word i

pub test_bit-set_bit :
    (m i j : ℕ) → test_bit (set_bit m i) j ≡ (if i == j then true else test_bit m j)
unfolding test_bit set_bit
test_bit-set_bit m zero zero = ground arith
test_bit-set_bit m zero (suc j) = ground arith
test_bit-set_bit m (suc i) zero = ground arith
test_bit-set_bit m (suc i) (suc j) =
    rw (half-digit (set_bit (m / 2) i) (m % 2) (omega arith), test_bit-set_bit (m / 2) i j)
      (ground arith)

pub test_bit-clear_bit :
    (m i j : ℕ) → test_bit (clear_bit m i) j ≡ (if i == j then false else test_bit m j)
unfolding test_bit clear_bit
test_bit-clear_bit m zero zero = ground arith
test_bit-clear_bit m zero (suc j) = ground arith
test_bit-clear_bit m (suc i) zero = ground arith
test_bit-clear_bit m (suc i) (suc j) =
    rw (half-digit (clear_bit (m / 2) i) (m % 2) (omega arith), test_bit-clear_bit (m / 2) i j)
      (ground arith)
