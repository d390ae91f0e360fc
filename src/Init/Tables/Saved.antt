-- ===== src/Init/Tables/Saved.antt =====
-- A table that is saved and loaded again.
use native.Mathlib.Nat.{pow-suc, mod-eq_of_lt}
use axiom_evi_apps.Prelude.{
  ℕ, zero, suc, ◌+◌, ◌/◌, ◌%◌, ◌^◌, ◌≤◌, ◌<◌, ◌≡◌, refl, sym, arith, ap, ◌∙◌, true, false, List, [],
  ◌∷◌, some, ltb, ◌==◌, done, undefined, Bool-cases, inl, inr,
}
use axiom_evi_apps.Init.Session.{ctz}
use axiom_evi_apps.Init.Tables.{
  Line, number, update, shifted, read_lines, axiom_rt_from_file, write_lines, axiom_rt_to_file,
}

pow_pos : (k : ℕ) → 0 < 2 ^ k
pow_pos zero = omega arith
pow_pos (suc k) = omega (arith, pow-suc 2 k, pow_pos k)

pow-lt : (k n : ℕ) → k < n → 2 ^ k < 2 ^ n
pow-lt k zero lt = absurd (omega arith)
pow-lt zero (suc n) lt = omega (arith, pow-suc 2 n, pow_pos n)
pow-lt (suc k) (suc n) lt = omega (arith, pow-suc 2 k, pow-suc 2 n, pow-lt k n (omega arith))

ctz-pow : (w k : ℕ) → k < w → ctz w (2 ^ k) ≡ k
unfolding ctz
ctz-pow zero k lt = absurd (omega arith)
ctz-pow (suc w) zero lt = refl
ctz-pow (suc w) (suc k) lt =
    let half : 2 ^ suc k / 2 ≡ 2 ^ k = omega (arith, pow-suc 2 k) in
    let even : (2 ^ suc k % 2 == 1) ≡ false = ground (arith, pow-suc 2 k) in
    rw (even, half, ctz-pow w k (omega arith)) (omega arith)

-- The lines of the entries from `nid` on.
lines_from : (ℕ → ℕ) → ℕ → ℕ → List Line
lines_from bit zero nid = []
lines_from bit (suc left) nid = number (bit nid) ∷ lines_from bit left (nid + 1)

write_lines_lem :
    (table bit : ℕ → ℕ) (left nid : ℕ)
    → ((k : ℕ) → nid ≤ k → k < nid + left → (bit k < 8) × (table k ≡ 2 ^ bit k))
    → write_lines table left nid ≡ done (lines_from bit left nid)
unfolding write_lines lines_from
write_lines_lem table bit zero nid one = refl
write_lines_lem table bit (suc left) nid one =
    let (small, is) = one nid (omega arith) (omega arith) in
    let some_bit : (table nid == 0) ≡ false = ground (arith, is, pow_pos (bit nid)) in
    let line : ctz 64 (table nid) ≡ bit nid = ap (ctz 64) is ∙ ctz-pow 64 (bit nid) (omega arith) in
    let rest =
      write_lines_lem table bit left (nid + 1) (λ k ge lt. one k (omega arith) (omega arith)) in
    rw (some_bit, rest, line) refl

shifted_small : (k : ℕ) → k < 8 → shifted (number k) ≡ done (2 ^ k)
unfolding shifted
shifted_small k lt =
    let few : ltb k 32 ≡ true = ground arith in
    let exact : 2 ^ k % 2 ^ 8 ≡ 2 ^ k = mod-eq_of_lt (pow-lt k 8 lt) in rw (few, exact) refl

read_lines_lem :
    (n : ℕ) (table bit : ℕ → ℕ) (left nid : ℕ) (before : ℕ → ℕ)
    → ((k : ℕ) → nid ≤ k → k < nid + left → (bit k < 8) × (table k ≡ 2 ^ bit k))
    → nid + left ≤ n
    → (out : ℕ → ℕ) × (read_lines n (lines_from bit left nid) nid before ≡ done (some out))
      × ((k : ℕ) → k < nid → out k ≡ before k)
      × ((k : ℕ) → nid ≤ k → k < nid + left → out k ≡ table k)
unfolding read_lines lines_from
read_lines_lem n table bit zero nid before one fits =
    (before, refl, λ k lt. refl, λ k ge lt. absurd (omega arith))
read_lines_lem n table bit (suc left) nid before one fits =
    let (small, is) = one nid (omega arith) (omega arith) in
    let room : ltb nid n ≡ true = ground arith in
    let v = 2 ^ bit nid in
    let (out, reads, kept, set) =
      read_lines_lem n table bit left (nid + 1) (update before nid v)
        (λ k ge lt. one k (omega arith) (omega arith)) (omega arith) in
    (
      out,
      rw (room, shifted_small (bit nid) small) reads,
      λ k lt. kept k (omega arith) ∙ ground arith,
      λ k ge lt. elim (Bool-cases (k == nid)) [
        | inl now ↦
            let at : k ≡ nid = ground arith in
            kept k (omega arith) ∙ (rw now (sym is)) ∙ ap table (sym at)
        | inr later ↦ set k (ground arith) (omega arith)
      ],
    )

-- A table of n entries, each of them one interface of the eight: it is saved, and the file that it is
-- saved in gives the same entries back.
pub axiom_rt_from_file-axiom_rt_to_file :
    (n : ℕ) (table bit : ℕ → ℕ)
    → ((k : ℕ) → k < n → (bit k < 8) × (table k ≡ 2 ^ bit k))
    → (ls : List Line) × (out : ℕ → ℕ) × (axiom_rt_to_file n true table ≡ done (some ls))
      × (axiom_rt_from_file n (some ls) ≡ done (some out))
      × ((k : ℕ) → k < n → out k ≡ table k)
unfolding axiom_rt_to_file axiom_rt_from_file
axiom_rt_from_file-axiom_rt_to_file n table bit one =
    let (out, reads, kept, set) =
      read_lines_lem n table bit n 0 (λ k. 0) (λ k ge lt. one k (omega arith)) (omega arith) in
    (
      lines_from bit n 0,
      out,
      rw (write_lines_lem table bit n 0 (λ k ge lt. one k (omega arith))) refl,
      reads,
      λ k lt. set k (omega arith) (omega arith),
    )

write_lines-undefined :
    (table : ℕ → ℕ) (left nid k : ℕ)
    → nid ≤ k
    → k < nid + left
    → table k ≡ 0
    → write_lines table left nid ≡ undefined
unfolding write_lines
write_lines-undefined table zero nid k ge lt e = absurd (omega arith)
write_lines-undefined table (suc left) nid k ge lt e = elim (Bool-cases (nid == k)) [
  | inl now ↦
      let at : nid ≡ k = ground arith in
      let none_there : (table nid == 0) ≡ true = ground (arith, ap table at, e) in
      rw none_there refl
  | inr later ↦
      let rest = write_lines-undefined table left (nid + 1) k (ground arith) (omega arith) e in
      elim (Bool-cases (table nid == 0)) [
        | inl gone ↦ rw gone refl
        | inr there ↦ rw (there, rest) refl
      ]
]

-- A table with a node that has no entry, as in every network of less than AXIOM_NODES_NUM nodes: to
-- save it is undefined, since the trailing zeros of 0 are counted.
pub axiom_rt_to_file-undefined :
    (n : ℕ) (table : ℕ → ℕ) (k : ℕ)
    → k < n
    → table k ≡ 0
    → axiom_rt_to_file n true table ≡ undefined
unfolding axiom_rt_to_file
axiom_rt_to_file-undefined n table k lt e =
    rw (write_lines-undefined table n 0 k (omega arith) (omega arith) e) refl
