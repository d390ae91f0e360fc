-- ===== src/Run/Launch/Choice.antt =====
-- The nodes that the master chooses, against those that the network has.
use native.Mathlib.Nat.{pow-suc, mul_assoc, mod-eq_of_lt}
use axiom_evi_apps.Prelude.{
  ℕ, zero, suc, ◌+◌, ◌-◌, ◌*◌, ◌%◌, ◌^◌, ◌≤◌, ◌<◌, min, ◌≡◌, refl, sym, arith, ap, bit_and, Bool,
  true, false, done, ltb, leb, ◌==◌, if◌then◌else◌, Bool-cases, inl, inr, ◌∙◌, for_all_from,
  for_all_from-at,
}
use axiom_evi_apps.Bits.{test_bit, test_bit-bit_and}
use axiom_evi_apps.Bits.Words.{test_bit-above}
use axiom_evi_apps.Run.Options.Nodes.{all_nodes_mask, clz_loop, clz}
use axiom_evi_apps.Run.Options.Masks.{test_bit-all_nodes_mask, shift_left-lt}
use axiom_evi_apps.Run.Launch.{choose_nodes}

doubling : (n d : ℕ) → n * 2 * 2 ^ d ≡ n * 2 ^ suc d
doubling n d = mul_assoc n 2 (2 ^ d) ∙ ap (λ (t : ℕ). n * t) (omega (arith, pow-suc 2 d))

half-lt : (m n : ℕ) → 0 < n → n * 2 < 2 ^ m → n < 2 ^ (m - 1)
half-lt zero n pos lt = absurd (omega arith)
half-lt (suc m) n pos lt = let e : suc m - 1 ≡ m = omega arith in rw e (omega (arith, pow-suc 2 m))

-- The loop counts doublings of n below 2 ^ 64.
clz_loop_lem :
    (fuel n c : ℕ)
    → n < 2 ^ 64
    → 0 < n
    → 2 ^ 64 ≤ n * 2 ^ fuel
    → (d : ℕ) × (clz_loop fuel n c ≡ c + d) × (n < 2 ^ (64 - d))
unfolding clz_loop
clz_loop_lem zero n c fits pos enough = absurd (omega arith)
clz_loop_lem (suc fuel) n c fits pos enough = elim (Bool-cases (leb (2 ^ 63) n)) [
  | inl e ↦ (0, ground arith, ground arith)
  | inr e ↦
      let doubled : n * 2 ^ 1 % 2 ^ 64 ≡ n * 2 = mod-eq_of_lt (ground arith) in
      let (d, counted, small) =
        clz_loop_lem fuel (n * 2) (c + 1) (ground arith) (omega arith)
          (omega (arith, doubling n fuel)) in
      let less : 64 - d - 1 ≡ 64 - suc d = omega arith in
      (suc d, rw (e, doubled, counted) (ground arith), rw (sym less) (half-lt (64 - d) n pos small))
]

if_true : (b : Bool) (x y : ℕ) → b ≡ true → (if b then x else y) ≡ x
if_true b x y e = rw e refl

if_false : (b : Bool) (x y : ℕ) → b ≡ false → (if b then x else y) ≡ y
if_false b x y e = rw e refl

clz_nonzero : (n : ℕ) → (n == 0) ≡ false → clz n ≡ clz_loop 64 n 0
unfolding clz
clz_nonzero n e = if_false (n == 0) 64 (clz_loop 64 n 0) e

-- A word is below 2 ^ (64 - clz).
clz-fits : (n : ℕ) → n < 2 ^ 64 → n < 2 ^ (64 - clz n)
clz-fits n fits = elim (Bool-cases (n == 0)) [
  | inl e ↦
      let zeros : clz n ≡ 64 = unfold clz in if_true (n == 0) 64 (clz_loop 64 n 0) e in
      rw zeros (ground arith)
  | inr e ↦
      let (d, counted, small) = clz_loop_lem 64 n 0 fits (ground arith) (ground arith) in
      let unit : 0 + d ≡ d = omega arith in
      let zeros : clz n ≡ d = clz_nonzero n e ∙ counted ∙ unit in rw zeros small
]

all_nodes_mask-lt : (n : ℕ) → all_nodes_mask n < 2 ^ 64
unfolding all_nodes_mask
all_nodes_mask-lt n = elim (Bool-cases (leb 63 n)) [
  | inl e ↦ rw e (omega arith)
  | inr e ↦ rw e (shift_left-lt (2 ^ n - 1) 1)
]

-- The mask before it is cropped.
abbrev named_nodes : ℕ → ℕ → ℕ
named_nodes n nodes = if nodes == 0 then all_nodes_mask n else nodes

choose_nodes_done :
    (network nodes m : ℕ)
    → choose_nodes network nodes ≡ done m
    → m ≡ (
        let n = min network 63 in
        let named = named_nodes n nodes in
        if ltb (n + 1 + clz named) 63 then bit_and named (all_nodes_mask n) else named)
unfolding choose_nodes
choose_nodes_done network nodes m e = ground (arith, e)

-- Whatever nodes were named: the master starts the application on no node above one more than the
-- number of the network's nodes (and than 63).
pub choose_nodes-bound :
    (network nodes m k : ℕ)
    → nodes < 2 ^ 64
    → choose_nodes network nodes ≡ done m
    → min network 63 + 1 < k
    → k < 64
    → test_bit m k ≡ 0
choose_nodes-bound network nodes m k fits chosen above lt =
    let n = min network 63 in
    let named = named_nodes n nodes in
    let named_fits : named < 2 ^ 64 = elim (Bool-cases (nodes == 0)) [
      | inl e ↦ rw e (all_nodes_mask-lt n)
      | inr e ↦ rw e fits
    ] in
    let masked : test_bit (all_nodes_mask n) k ≡ 0 =
      ground (arith, test_bit-all_nodes_mask n k lt) in
    rw (choose_nodes_done network nodes m chosen) (elim (Bool-cases (ltb (n + 1 + clz named) 63)) [
      | inl e ↦ rw e (omega (arith, test_bit-bit_and named (all_nodes_mask n) k, masked))
      | inr e ↦
          rw e (test_bit-above (64 - clz named) named k (clz-fits named named_fits) (ground arith))
    ])

-- The mask with the node behind the last alone.
abbrev survives : ℕ → Bool
survives n = elim (choose_nodes n (2 ^ (n + 1))) [ done m ↦ m == 2 ^ (n + 1) | _ ↦ false ]

survives_table : for_all_from survives 0 62 ≡ true
unfolding for_all_from choose_nodes clz clz_loop all_nodes_mask
survives_table = refl

survives_done : (n : ℕ) → survives n ≡ true → choose_nodes n (2 ^ (n + 1)) ≡ done (2 ^ (n + 1))
survives_done n e = ground (arith, e)

-- The bound is reached, in every network of less than 62 nodes: the crop that is to drop the nodes
-- that are not there keeps the node whose number is one more than the last.
pub choose_nodes-one_too_many : (n : ℕ) → n < 62 → choose_nodes n (2 ^ (n + 1)) ≡ done (2 ^ (n + 1))
choose_nodes-one_too_many n lt =
    survives_done n (for_all_from-at survives 0 62 n (omega arith) (omega arith) survives_table)
