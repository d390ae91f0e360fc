-- ===== src/Bits/Words.antt =====
-- Words of a fixed width: complement, extensionality and the count of the bits that are set.
use native.Mathlib.Nat.{pow-suc, one-le-pow}
use axiom_evi_apps.Prelude.{
  ℕ, zero, suc, ◌+◌, ◌-◌, ◌/◌, ◌%◌, ◌^◌, ◌≤◌, ◌<◌, bit_and, bit_or, ◌≡◌, refl, ◌≢◌, arith, ◌==◌,
  if◌then◌else◌,
}
use axiom_evi_apps.Bits.{test_bit, test_bit-le, test_bit-zero, test_bit-bit_or, test_bit-bit_and}
use axiom_evi_apps.Bits.{
  test_bit-pow_self, test_bit-pow_ne, bit_or_halves, bit_and_halves, zero-bit_and,
}

-- ~x on a word of w bits
abbrev pub complement : ℕ → ℕ → ℕ
complement w x = 2 ^ w - 1 - x

pub test_bit-complement :
    (w x k : ℕ) → x < 2 ^ w → k < w → test_bit (complement w x) k ≡ 1 - test_bit x k
unfolding test_bit
test_bit-complement zero x k fits lt = absurd (omega arith)
test_bit-complement (suc w) x zero fits lt = omega (arith, pow-suc 2 w, one-le-pow w 2)
test_bit-complement (suc w) x (suc k) fits lt =
    let halved : complement (suc w) x / 2 ≡ complement w (x / 2) =
      omega (arith, pow-suc 2 w, one-le-pow w 2) in
    rw halved (test_bit-complement w (x / 2) k (omega (arith, pow-suc 2 w)) (omega arith))

pub test_bit-above : (w x k : ℕ) → x < 2 ^ w → w ≤ k → test_bit x k ≡ 0
unfolding test_bit
test_bit-above zero x k fits le = let e : x ≡ 0 = omega arith in rw e (test_bit-zero k)
test_bit-above (suc w) x zero fits le = absurd (omega arith)
test_bit-above (suc w) x (suc k) fits le =
    test_bit-above w (x / 2) k (omega (arith, pow-suc 2 w)) (omega arith)

-- Words with the same bits are equal.
pub word_ext :
    (w x y : ℕ) → x < 2 ^ w → y < 2 ^ w → ((k : ℕ) → k < w → test_bit x k ≡ test_bit y k) → x ≡ y
unfolding test_bit
word_ext zero x y hx hy same = omega arith
word_ext (suc w) x y hx hy same =
    let halves : x / 2 ≡ y / 2 =
      word_ext w (x / 2) (y / 2) (omega (arith, pow-suc 2 w)) (omega (arith, pow-suc 2 w))
        (λ k lt. same (suc k) (omega arith)) in
    omega (arith, same 0 (omega arith))

pub lt-half : (w x : ℕ) → x < 2 ^ suc w → x / 2 < 2 ^ w
lt-half w x h = omega (arith, pow-suc 2 w)

-- A number whose bits from w on are clear fits w bits: shown by what or and and make of words.
pub bit_or-lt : (w x y : ℕ) → x < 2 ^ w → y < 2 ^ w → bit_or x y < 2 ^ w
bit_or-lt zero x y hx hy =
    let ex : x ≡ 0 = omega arith in let ey : y ≡ 0 = omega arith in rw (ex, ey) (omega arith)
bit_or-lt (suc w) x y hx hy =
    let halved = bit_or-lt w (x / 2) (y / 2) (lt-half w x hx) (lt-half w y hy) in
    omega (arith, pow-suc 2 w, bit_or_halves x y)

pub bit_and-le : (w x y : ℕ) → x < 2 ^ w → bit_and x y ≤ x
bit_and-le zero x y hx = let e : x ≡ 0 = omega arith in rw e (omega (arith, zero-bit_and y))
bit_and-le (suc w) x y hx =
    let halved = bit_and-le w (x / 2) (y / 2) (lt-half w x hx) in omega (arith, bit_and_halves x y)

-- x | 1 << k
abbrev pub set_bit : ℕ → ℕ → ℕ
set_bit x k = bit_or x (2 ^ k)

-- x & ~(1 << k) on a word of w bits
abbrev pub clear_bit : ℕ → ℕ → ℕ → ℕ
clear_bit w x k = bit_and x (complement w (2 ^ k))

pub test_bit-set_bit : (x k j : ℕ) → test_bit (set_bit x k) j ≡ (if j == k then 1 else test_bit x j)
test_bit-set_bit x k j =
    ground (
      arith,
      test_bit-bit_or x (2 ^ k) j,
      test_bit-pow_self k,
      test_bit-pow_ne k j,
      test_bit-le x j,
    )

pub pow-lt-pow : (k w : ℕ) → k < w → 2 ^ k < 2 ^ w
pow-lt-pow k zero h = absurd (omega arith)
pow-lt-pow zero (suc w) h = omega (arith, pow-suc 2 w, one-le-pow w 2)
pow-lt-pow (suc k) (suc w) h = omega (arith, pow-suc 2 w, pow-suc 2 k, pow-lt-pow k w (omega arith))

pub test_bit-clear_bit :
    (w x k j : ℕ)
    → k < w
    → j < w
    → test_bit (clear_bit w x k) j ≡ (if j == k then 0 else test_bit x j)
test_bit-clear_bit w x k j hk hj = ground (
  arith,
  test_bit-bit_and x (complement w (2 ^ k)) j,
  test_bit-complement w (2 ^ k) j (pow-lt-pow k w hk) hj,
  test_bit-pow_self k,
  test_bit-pow_ne k j,
  test_bit-le x j,
)

-- how many of the w low bits are set
unfoldable pub popcount : ℕ → ℕ → ℕ
popcount zero x = 0
popcount (suc w) x = x % 2 + popcount w (x / 2)

pub popcount-zero : (w : ℕ) → popcount w 0 ≡ 0
unfolding popcount
popcount-zero zero = refl
popcount-zero (suc w) = omega (arith, popcount-zero w)

pub popcount_ext :
    (w x y : ℕ) → ((j : ℕ) → j < w → test_bit x j ≡ test_bit y j) → popcount w x ≡ popcount w y
unfolding popcount test_bit
popcount_ext zero x y same = refl
popcount_ext (suc w) x y same = omega (
  arith,
  same 0 (omega arith),
  popcount_ext w (x / 2) (y / 2) (λ j lt. same (suc j) (omega arith)),
)

-- Words that differ in one bit, which is set in the second alone.
pub popcount_one_more :
    (w x y k : ℕ)
    → k < w
    → test_bit x k ≡ 0
    → test_bit y k ≡ 1
    → ((j : ℕ) → j < w → j ≢ k → test_bit x j ≡ test_bit y j)
    → popcount w y ≡ popcount w x + 1
unfolding popcount test_bit
popcount_one_more zero x y k lt hx hy same = absurd (omega arith)
popcount_one_more (suc w) x y zero lt hx hy same =
    omega (arith, popcount_ext w (x / 2) (y / 2) (λ j h. same (suc j) (omega arith) (omega arith)))
popcount_one_more (suc w) x y (suc k) lt hx hy same = omega (
  arith,
  same 0 (omega arith) (omega arith),
  popcount_one_more w (x / 2) (y / 2) k (omega arith) hx hy
      (λ j h ne. same (suc j) (omega arith) (omega arith)),
)
