-- ===== src/Bits/Shift.antt =====
-- Shifts to the left, words modulo 2 ^ w, and the words 2 ^ n - 1, bit by bit.
use native.Mathlib.Nat.{
  pow-suc, one-le-pow, mul_assoc, mod-add-div, add-mul-mod_self_left, mod-eq_of_lt, mod-lt,
}
use axiom_evi_apps.Prelude.{
  ℕ, zero, suc, ◌+◌, ◌-◌, ◌*◌, ◌/◌, ◌%◌, ◌^◌, ◌<◌, ◌≡◌, sym, arith, ap, ltb, if◌then◌else◌, ◌∙◌,
}
use axiom_evi_apps.Bits.{test_bit, test_bit-zero}

-- x as a multiple of 2 ^ (w + 1), whose half is a multiple of 2 ^ w.
halved_mod : (w x : ℕ) → (x % 2 ^ suc w % 2 ≡ x % 2) × (x % 2 ^ suc w / 2 ≡ x / 2 % 2 ^ w)
halved_mod w x =
    let t = 2 ^ w * (x / 2 ^ suc w) in
    let double : 2 ^ suc w * (x / 2 ^ suc w) ≡ 2 * t =
      ap (λ (m : ℕ). m * (x / 2 ^ suc w)) (omega (arith, pow-suc 2 w))
      ∙ mul_assoc 2 (2 ^ w) (x / 2 ^ suc w) in
    let whole = mod-add-div x (2 ^ suc w) in
    let small = mod-lt x {m = 2 ^ suc w} (omega (arith, pow-suc 2 w, one-le-pow w 2)) in
    let half : x / 2 ≡ x % 2 ^ suc w / 2 + t = omega (arith, double, whole) in
    (
      omega (arith, double, whole),
      sym (
          rw half (
            add-mul-mod_self_left (x % 2 ^ suc w / 2) (2 ^ w) (x / 2 ^ suc w)
            ∙ mod-eq_of_lt (omega (arith, small, pow-suc 2 w)))),
    )

-- The low w bits of a number.
pub test_bit-mod : (w x k : ℕ) → k < w → test_bit (x % 2 ^ w) k ≡ test_bit x k
unfolding test_bit
test_bit-mod zero x k lt = absurd (omega arith)
test_bit-mod (suc w) x zero lt = (halved_mod w x).0
test_bit-mod (suc w) x (suc k) lt = rw (halved_mod w x).1 (test_bit-mod w (x / 2) k (omega arith))

shifted_suc : (x a : ℕ) → x * 2 ^ suc a ≡ x * 2 ^ a * 2
shifted_suc x a = ap (λ (m : ℕ). x * m) (pow-suc 2 a) ∙ sym (mul_assoc x (2 ^ a) 2)

pub test_bit-shift :
    (x a k : ℕ) → test_bit (x * 2 ^ a) k ≡ (if ltb k a then 0 else test_bit x (k - a))
unfolding test_bit
test_bit-shift x zero k = let e : x * 2 ^ 0 ≡ x = omega arith in rw e (ground arith)
test_bit-shift x (suc a) zero = ground (arith, shifted_suc x a)
test_bit-shift x (suc a) (suc k) =
    let half : x * 2 ^ suc a / 2 ≡ x * 2 ^ a = omega (arith, shifted_suc x a) in
    rw half (ground (arith, test_bit-shift x a k))

-- 2 ^ n - 1 has the bits below n.
pub test_bit-ones : (n k : ℕ) → test_bit (2 ^ n - 1) k ≡ (if ltb k n then 1 else 0)
unfolding test_bit
test_bit-ones zero k = ground (arith, test_bit-zero k)
test_bit-ones (suc n) zero = ground (arith, pow-suc 2 n, one-le-pow n 2)
test_bit-ones (suc n) (suc k) =
    let half : (2 ^ suc n - 1) / 2 ≡ 2 ^ n - 1 = omega (arith, pow-suc 2 n, one-le-pow n 2) in
    rw half (ground (arith, test_bit-ones n k))
