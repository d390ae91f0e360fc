-- ===== src/Discovery/Routing/Counting.antt =====
-- How many entries of a row are set: what `neighbours_counter` counts where no two interfaces of
-- the node lead to the same neighbour.
use axiom_evi_apps.Prelude.{
  ℕ, zero, suc, ◌+◌, ◌≤◌, ◌<◌, ◌≡◌, refl, ◌≢◌, arith, ◌==◌, if◌then◌else◌, Bool-cases, inl, inr,
}
use axiom_evi_apps.Discovery.Routing.{update}

-- How many of f i, …, f (i + n - 1) are not 0.
pub count : (ℕ → ℕ) → ℕ → ℕ → ℕ
count f i zero = 0
count f i (suc n) = (if f i == 0 then 0 else 1) + count f (i + 1) n

pub count-update_below : (f : ℕ → ℕ) (t v i n : ℕ) → t < i → count (update f t v) i n ≡ count f i n
unfolding count
count-update_below f t v i zero lt = refl
count-update_below f t v i (suc n) lt = ground (arith, count-update_below f t v (i + 1) n)

pub count-update :
    (f : ℕ → ℕ) (t v i n : ℕ)
    → i ≤ t
    → t < i + n
    → f t ≡ 0
    → v ≢ 0
    → count (update f t v) i n ≡ count f i n + 1
unfolding count
count-update f t v i zero ge lt unset set = absurd (omega arith)
count-update f t v i (suc n) ge lt unset set = elim (Bool-cases (i == t)) [
  | inl now ↦
      let e : i ≡ t = ground arith in
      let zero_at : f i ≡ 0 = ground arith in ground (arith, count-update_below f t v (i + 1) n)
  | inr later ↦ ground (arith, count-update f t v (i + 1) n)
]

pub count-le : (f : ℕ → ℕ) (i n : ℕ) → count f i n ≤ n
unfolding count
count-le f i zero = omega arith
count-le f i (suc n) = ground (arith, count-le f (i + 1) n)

pub count-one_unset : (f : ℕ → ℕ) (t i n : ℕ) → i ≤ t → t < i + n → f t ≡ 0 → count f i n + 1 ≤ n
unfolding count
count-one_unset f t i zero ge lt unset = absurd (omega arith)
count-one_unset f t i (suc n) ge lt unset =
    ground (arith, count-le f (i + 1) n, count-one_unset f t (i + 1) n)

pub count-two_unset :
    (f : ℕ → ℕ) (t u i n : ℕ)
    → i ≤ t
    → t < i + n
    → f t ≡ 0
    → i ≤ u
    → u < i + n
    → f u ≡ 0
    → t ≢ u
    → count f i n + 2 ≤ n
unfolding count
count-two_unset f t u i zero ge lt unset ge' lt' unset' ne = absurd (omega arith)
count-two_unset f t u i (suc n) ge lt unset ge' lt' unset' ne = ground (
  arith,
  count-one_unset f t (i + 1) n,
  count-one_unset f u (i + 1) n,
  count-two_unset f t u (i + 1) n,
)

pub count-all_set :
    (f : ℕ → ℕ) (i n : ℕ) → ((t : ℕ) → i ≤ t → t < i + n → f t ≢ 0) → count f i n ≡ n
unfolding count
count-all_set f i zero set = refl
count-all_set f i (suc n) set = ground (
  arith,
  set i (omega arith) (omega arith),
  count-all_set f (i + 1) n (λ t ge lt. set t (omega arith) (omega arith)),
)

pub count-but_one :
    (f : ℕ → ℕ) (u i n : ℕ) → ((t : ℕ) → i ≤ t → t < i + n → t ≢ u → f t ≢ 0) → n ≤ count f i n + 1
unfolding count
count-but_one f u i zero set = omega arith
count-but_one f u i (suc n) set = elim (Bool-cases (i == u)) [
  | inl now ↦ ground (
    arith,
    count-all_set f (i + 1) n (λ t ge lt. set t (omega arith) (omega arith) (ground arith)),
  )
  | inr other ↦ ground (
    arith,
    set i (omega arith) (omega arith),
    count-but_one f u (i + 1) n (λ t ge lt. set t (omega arith) (omega arith)),
  )
]

pub count-none : (i n : ℕ) → count (λ _. 0) i n ≡ 0
unfolding count
count-none i zero = refl
count-none i (suc n) = ground (arith, count-none (i + 1) n)
