-- ===== src/Bits/Step.antt =====
-- `x & y` and `x | y` in terms of the halves of x and y. The native operations are `bitwise`, which
-- gives its recursion as much fuel as the first number.
use axiom_evi_apps.Prelude.{
  ℕ, zero, suc, ◌+◌, ◌*◌, ◌/◌, ◌%◌, ◌≤◌, ◌<◌, min, max, bit_and, bit_or, ◌≡◌, refl, arith,
}
use Prim.Native.Nat.{bit_or-bitwise, bit_and-bitwise, bitwise, digits}

-- By induction on a bound of the fuel, as the two sides call with different fuel.
enough_fuel :
    (rest : ℕ → ℕ) (digit : ℕ → ℕ → ℕ) (bound fuel x y : ℕ)
    → fuel ≤ bound
    → x ≤ fuel
    → digits rest digit fuel x y ≡ bitwise rest digit x y
enough_fuel rest digit bound zero x y le enough =
    let none_left : x ≡ 0 = omega arith in rw none_left refl
enough_fuel rest digit bound (suc fuel) zero y le enough = refl
enough_fuel rest digit zero (suc fuel) (suc x) y le enough = absurd (omega arith)
enough_fuel rest digit (suc bound) (suc fuel) (suc x) y le enough =
    let half = suc x / 2 in
    rw (
      enough_fuel rest digit bound fuel half (y / 2) (omega arith) (omega arith),
      enough_fuel rest digit bound x half (y / 2) (omega arith) (omega arith),
    )

halves :
    (rest : ℕ → ℕ) (digit : ℕ → ℕ → ℕ) (x y : ℕ)
    → 0 < x
    → bitwise rest digit x y ≡ bitwise rest digit (x / 2) (y / 2) * 2 + digit (x % 2) (y % 2)
halves rest digit zero y pos = absurd (omega arith)
halves rest digit (suc x) y pos =
    rw (enough_fuel rest digit x x (suc x / 2) (y / 2) (omega arith) (omega arith))

pub zero-bit_and : (y : ℕ) → bit_and 0 y ≡ 0
zero-bit_and y = bit_and-bitwise 0 y

pub bit_and_halves : (x y : ℕ) → min (x % 2) (y % 2) + 2 * bit_and (x / 2) (y / 2) ≡ bit_and x y
bit_and_halves zero y = omega (arith, zero-bit_and y, zero-bit_and (y / 2))
bit_and_halves (suc x) y = omega (
  arith,
  bit_and-bitwise (suc x) y,
  bit_and-bitwise (suc x / 2) (y / 2),
  halves (λ y. 0) min (suc x) y (omega arith),
)

pub bit_or_halves : (x y : ℕ) → max (x % 2) (y % 2) + 2 * bit_or (x / 2) (y / 2) ≡ bit_or x y
bit_or_halves zero y = omega (arith, bit_or-bitwise 0 y, bit_or-bitwise 0 (y / 2))
bit_or_halves (suc x) y = omega (
  arith,
  bit_or-bitwise (suc x) y,
  bit_or-bitwise (suc x / 2) (y / 2),
  halves (λ y. y) max (suc x) y (omega arith),
)
