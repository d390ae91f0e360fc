-- ===== src/Init/Session/Laws.antt =====
-- What `next`, `release` and `used` do to the mask of free sessions.
use native.Mathlib.Nat.{pow-suc}
use native.Mathlib.Numerals.{add-one}
use axiom_evi_apps.Prelude.{
  ℕ, zero, suc, ◌-◌, ◌/◌, ◌%◌, ◌^◌, ◌<◌, ◌≡◌, ◌≢◌, arith, false, ◌==◌, inl, inr, Bool-cases,
}
use axiom_evi_apps.Bits.{test_bit}
use axiom_evi_apps.Bits.Words.{test_bit-clear_bit, bit_and-le}
use axiom_evi_apps.Init.Session.{ctz, next}

pub ctz-lt : (w x : ℕ) → x ≢ 0 → x < 2 ^ w → ctz w x < w
unfolding ctz
ctz-lt zero x ne lt = absurd (omega arith)
ctz-lt (suc w) x ne lt = ground (arith, pow-suc 2 w, ctz-lt w (x / 2))

pub test_bit-ctz : (w x : ℕ) → x ≢ 0 → x < 2 ^ w → test_bit x (ctz w x) ≡ 1
unfolding ctz test_bit
test_bit-ctz zero x ne lt = absurd (omega arith)
test_bit-ctz (suc w) x ne lt = elim (Bool-cases (x % 2 == 1)) [
  | inl odd ↦ rw odd (ground arith)
  | inr even ↦
      rw (even, add-one) (test_bit-ctz w (x / 2) (ground arith) (ground (arith, pow-suc 2 w)))
]

pub test_bit-below_ctz : (w x k : ℕ) → k < ctz w x → test_bit x k ≡ 0
unfolding ctz test_bit
test_bit-below_ctz zero x k lt = absurd (omega arith)
test_bit-below_ctz (suc w) x zero lt = ground arith
test_bit-below_ctz (suc w) x (suc k) lt = ground (arith, test_bit-below_ctz w (x / 2) k)

-- `next` on a mask with a free session: what is handed out and what is left of the mask.
pub record Allocates (before : ℕ) (result : ℕ × ℕ) : Type 0 where
  pub in_range : result.0 < 32
  pub was_free : test_bit before result.0 ≡ 1
  pub lowest : (k : ℕ) → k < result.0 → test_bit before k ≡ 0
  pub now_used : test_bit result.1 result.0 ≡ 0
  pub others : (k : ℕ) → k < 32 → k ≢ result.0 → test_bit result.1 k ≡ test_bit before k
  pub fits : result.1 < 2 ^ 32

pub next-Allocates :
    (empty sessions : ℕ)
    → sessions ≢ 0
    → sessions < 2 ^ 32
    → Allocates sessions (next empty sessions)
unfolding next
next-Allocates empty sessions ne lt =
    let ses = ctz 32 sessions in
    let small = ctz-lt 32 sessions ne lt in
    let not_zero : (sessions == 0) ≡ false = ground arith in
    rw not_zero (record {
      in_range = small;
      was_free = test_bit-ctz 32 sessions ne lt;
      lowest = λ k. test_bit-below_ctz 32 sessions k;
      now_used = ground (arith, test_bit-clear_bit 32 sessions ses ses small small);
      others = λ k hk ne'. ground (arith, test_bit-clear_bit 32 sessions ses k small hk);
      fits = omega (arith, bit_and-le 32 sessions (2 ^ 32 - 1 - 2 ^ ses) lt);
    })
