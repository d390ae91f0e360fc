-- ===== src/Bits.antt =====
-- The bits of an unsigned C integer, for the masks that the programs keep: `x & y`, `x | y`, `~x`,
-- `1 << k` and `x >> 1` on numbers, and how each is read bit by bit.
mod Step
pub mod Words
pub mod Shift
pub use Step.{bit_or_halves, bit_and_halves, zero-bit_and}
use native.Mathlib.Nat.{pow-suc}
use axiom_evi_apps.Prelude.{
  ℕ, zero, suc, ◌+◌, ◌-◌, ◌*◌, ◌/◌, ◌%◌, ◌^◌, ◌≤◌, ◌<◌, min, max, bit_and, bit_or, ◌≡◌, refl, ◌≢◌,
  arith, ap,
}

-- (x >> k) & 1
unfoldable pub test_bit : ℕ → ℕ → ℕ
test_bit x zero = x % 2
test_bit x (suc k) = test_bit (x / 2) k

pub test_bit-le : (x k : ℕ) → test_bit x k ≤ 1
unfolding test_bit
test_bit-le x zero = omega arith
test_bit-le x (suc k) = test_bit-le (x / 2) k

pub test_bit-zero : (k : ℕ) → test_bit 0 k ≡ 0
unfolding test_bit
test_bit-zero zero = refl
test_bit-zero (suc k) = test_bit-zero k

-- A word with a bit set is not 0.
pub ne-zero_of_test_bit : (x k : ℕ) → test_bit x k ≡ 1 → x ≢ 0
ne-zero_of_test_bit x k h e = omega (arith, test_bit-zero k, ap (λ (t : ℕ). test_bit t k) e)

pub test_bit-bit_or : (x y k : ℕ) → test_bit (bit_or x y) k ≡ max (test_bit x k) (test_bit y k)
unfolding test_bit
test_bit-bit_or x y zero = omega (arith, bit_or_halves x y)
test_bit-bit_or x y (suc k) =
    let halved : bit_or x y / 2 ≡ bit_or (x / 2) (y / 2) = omega (arith, bit_or_halves x y) in
    rw halved (test_bit-bit_or (x / 2) (y / 2) k)

pub test_bit-bit_and : (x y k : ℕ) → test_bit (bit_and x y) k ≡ min (test_bit x k) (test_bit y k)
unfolding test_bit
test_bit-bit_and x y zero = omega (arith, bit_and_halves x y)
test_bit-bit_and x y (suc k) =
    let halved : bit_and x y / 2 ≡ bit_and (x / 2) (y / 2) = omega (arith, bit_and_halves x y) in
    rw halved (test_bit-bit_and (x / 2) (y / 2) k)

-- `1 << j` has bit j and no other.
pub test_bit-pow_self : (j : ℕ) → test_bit (2 ^ j) j ≡ 1
unfolding test_bit
test_bit-pow_self zero = refl
test_bit-pow_self (suc j) =
    let halved : 2 ^ suc j / 2 ≡ 2 ^ j = omega (arith, pow-suc 2 j) in
    rw halved (test_bit-pow_self j)

pub test_bit-pow_ne : (j k : ℕ) → j ≢ k → test_bit (2 ^ j) k ≡ 0
unfolding test_bit
test_bit-pow_ne zero zero ne = absurd (ne refl)
test_bit-pow_ne zero (suc k) ne = test_bit-zero k
test_bit-pow_ne (suc j) zero ne = omega (arith, pow-suc 2 j)
test_bit-pow_ne (suc j) (suc k) ne =
    let halved : 2 ^ suc j / 2 ≡ 2 ^ j = omega (arith, pow-suc 2 j) in
    rw halved (test_bit-pow_ne j k (λ e. ne (ap suc e)))

pub bit_and-zero : (x : ℕ) → bit_and x 0 ≡ 0
bit_and-zero x = below (suc x) x (omega arith)
  where
    below : (bound y : ℕ) → y < bound → bit_and y 0 ≡ 0
    below zero y lt = absurd (omega arith)
    below (suc bound) zero lt = zero-bit_and 0
    below (suc bound) (suc y) lt =
        let half = below bound (suc y / 2) (omega arith) in
        omega (arith, half, bit_and_halves (suc y) 0)

-- x & (1 << k) is x's bit k, in its place.
pub bit_and-pow : (x k : ℕ) → bit_and x (2 ^ k) ≡ test_bit x k * 2 ^ k
unfolding test_bit
bit_and-pow x zero = omega (arith, bit_and_halves x 1, bit_and-zero (x / 2))
bit_and-pow x (suc k) =
    let halved : 2 ^ suc k / 2 ≡ 2 ^ k = omega (arith, pow-suc 2 k) in
    let even : 2 ^ suc k % 2 ≡ 0 = omega (arith, pow-suc 2 k) in
    let below : bit_and (x / 2) (2 ^ suc k / 2) ≡ test_bit (x / 2) k * 2 ^ k =
      rw halved (bit_and-pow (x / 2) k) in
    omega (
      arith,
      bit_and_halves x (2 ^ suc k),
      below,
      ap (λ (t : ℕ). test_bit (x / 2) k * t) (pow-suc 2 k),
    )
