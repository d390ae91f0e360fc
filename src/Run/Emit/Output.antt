-- ===== src/Run/Emit/Output.antt =====
-- The write loop, and the library searches that `emit` uses.
use axiom_evi_apps.Prelude.{
  ℕ, zero, suc, ◌≤◌, ◌<◌, ◌≡◌, refl, arith, false, List, [], ◌∷◌, ◌++◌, length, drop,
  take-append-drop, length-drop, none, some, ◌==◌, Option-cases, inl, inr,
}
use axiom_evi_apps.Run.Emit.{memchr, memrchr, output_loop, output}

-- `fwrite` takes at least one of the bytes that it is given, and no more than all.
abbrev pub IsProgress : (List ℕ → ℕ) → Type 0
IsProgress fwrite = (xs : List ℕ) → 0 < length xs → (0 < fwrite xs) × (fwrite xs ≤ length xs)

length-zero {ℓ} : {A : Type ℓ} (xs : List A) → length xs ≡ 0 → xs ≡ []
length-zero [] e = refl
length-zero (x ∷ xs) e = absurd (omega arith)

output_loop-all :
    (fwrite : List ℕ → ℕ) (fuel : ℕ) (xs : List ℕ)
    → IsProgress fwrite
    → length xs ≤ fuel
    → output_loop fwrite fuel xs ≡ xs
unfolding output_loop
output_loop-all fwrite zero [] moves le = refl
output_loop-all fwrite zero (x ∷ xs) moves le = absurd (omega arith)
output_loop-all fwrite (suc fuel) [] moves le = refl
output_loop-all fwrite (suc fuel) (x ∷ xs) moves le =
    let step = moves (x ∷ xs) (omega arith) in
    let some_taken : (fwrite (x ∷ xs) == 0) ≡ false = ground (arith, step) in
    let rest =
      output_loop-all fwrite fuel (drop (fwrite (x ∷ xs)) (x ∷ xs)) moves
        (omega (arith, length-drop (fwrite (x ∷ xs)) (x ∷ xs), step)) in
    let more : (suc (length xs) == 0) ≡ false = ground arith in
    rw (more, some_taken, rest) (take-append-drop (fwrite (x ∷ xs)) (x ∷ xs))

-- While `fwrite` makes progress, `output` writes all the bytes, in order.
pub output_all : (fwrite : List ℕ → ℕ) (xs : List ℕ) → IsProgress fwrite → output fwrite xs ≡ xs
unfolding output
output_all fwrite xs moves = output_loop-all fwrite (length xs) xs moves (omega arith)

pub memchr-lt : (c : ℕ) (xs : List ℕ) (p : ℕ) → memchr c xs ≡ some p → p < length xs
unfolding memchr
memchr-lt c [] p e = cc
memchr-lt c (x ∷ xs) zero e = omega arith
memchr-lt c (x ∷ xs) (suc p) e = ground (arith, memchr-lt c xs p)

pub memrchr-lt : (c : ℕ) (xs : List ℕ) (p : ℕ) → memrchr c xs ≡ some p → p < length xs
unfolding memrchr
memrchr-lt c [] p e = cc
memrchr-lt c (x ∷ xs) zero e = omega arith
memrchr-lt c (x ∷ xs) (suc p) e = ground (arith, memrchr-lt c xs p)

-- A byte that is not found from the right is not found from the left.
pub memchr-memrchr-none : (c : ℕ) (xs : List ℕ) → memrchr c xs ≡ none → memchr c xs ≡ none
unfolding memchr memrchr
memchr-memrchr-none c [] e = refl
memchr-memrchr-none c (x ∷ xs) e = ground (arith, memchr-memrchr-none c xs)

-- Behind the last occurrence there is none.
pub memchr-drop-memrchr :
    (c : ℕ) (xs : List ℕ) (p : ℕ) → memrchr c xs ≡ some p → memchr c (drop (suc p) xs) ≡ none
unfolding memrchr
memchr-drop-memrchr c [] p e = cc
memchr-drop-memrchr c (x ∷ xs) zero e = elim (Option-cases (memrchr c xs)) [
  | inl nowhere ↦ memchr-memrchr-none c xs nowhere
  | inr (i, found) ↦ ground arith
]
memchr-drop-memrchr c (x ∷ xs) (suc p) e = ground (arith, memchr-drop-memrchr c xs p)

pub memchr-append_none :
    (c : ℕ) (xs ys : List ℕ) → memchr c xs ≡ none → memchr c ys ≡ none → memchr c (xs ++ ys) ≡ none
unfolding memchr
memchr-append_none c [] ys hx hy = hy
memchr-append_none c (x ∷ xs) ys hx hy = ground (arith, memchr-append_none c xs ys)
