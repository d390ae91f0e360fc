-- ===== src/Init/Tables/Tests.antt =====
-- Files of routing tables.
use axiom_evi_apps.Prelude.{
  ℕ, zero, suc, ◌^◌, ◌<◌, ◌≡◌, refl, arith, true, false, List, [], ◌∷◌, some, ltb, done, undefined,
  if◌then◌else◌,
}
use axiom_evi_apps.Init.Tables.{
  Line, negative, axiom_rt_from_file, read_lines, shifted, axiom_rt_to_file,
}
use axiom_evi_apps.Init.Tables.Saved.{
  axiom_rt_from_file-axiom_rt_to_file, axiom_rt_to_file-undefined,
}

-- Interface 3 to the first two nodes, 0 to the others.
abbrev table : ℕ → ℕ
table k = if ltb k 2 then 8 else 1

abbrev bit : ℕ → ℕ
bit k = if ltb k 2 then 3 else 0

one_bit : (k : ℕ) → k < 4 → (bit k < 8) × (table k ≡ 2 ^ bit k)
one_bit zero lt = (omega arith, refl)
one_bit (suc zero) lt = (omega arith, refl)
one_bit (suc (suc k)) lt =
    let late : ltb (suc (suc k)) 2 ≡ false = ground arith in (rw late (omega arith), rw late refl)

axiom_rt_from_file-axiom_rt_to_file_example :
    (ls : List Line) × (out : ℕ → ℕ) × (axiom_rt_to_file 4 true table ≡ done (some ls))
    × (axiom_rt_from_file 4 (some ls) ≡ done (some out))
    × ((k : ℕ) → k < 4 → out k ≡ table k)
axiom_rt_from_file-axiom_rt_to_file_example =
    axiom_rt_from_file-axiom_rt_to_file 4 table bit one_bit

unsaved : axiom_rt_to_file 4 true (λ k. k) ≡ undefined
unsaved = axiom_rt_to_file-undefined 4 (λ k. k) 0 (omega arith) refl

-- The test of the range lets every number through.
out_of_range : axiom_rt_from_file 4 (some (negative ∷ [])) ≡ undefined
unfolding axiom_rt_from_file read_lines shifted
out_of_range = refl
