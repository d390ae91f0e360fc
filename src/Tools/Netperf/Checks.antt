-- ===== src/Tools/Netperf/Checks.antt =====
-- What the two servers accept as the memory after an RDMA test.
use mathlib.Core.Path.{subst}
use axiom_evi_apps.Prelude.{
  [], ◌∷◌, ℕ, zero, suc, ◌+◌, ◌%◌, ◌^◌, ◌-◌, ◌≤◌, ◌<◌, ◌≡◌, ◌≢◌, refl, sym, arith, ap, Bool, true,
  false, some, ltb, ◌==◌, ◌&&◌, not, if◌then◌else◌, for_all_from, for_all_from-at, lt→ltb,
  Bool-cases, inl, inr, ◌∙◌,
}
use axiom_evi_apps.Tools.Netperf.{
  rdma_end, DaemonStatus, daemon_reply, magic_at, check_loop, rdma_failed,
}

for_all_from-all :
    (p : ℕ → Bool) (start count : ℕ)
    → ((i : ℕ) → start ≤ i → i < start + count → p i ≡ true)
    → for_all_from p start count ≡ true
unfolding for_all_from
for_all_from-all p start zero all = refl
for_all_from-all p start (suc count) all = ground (
  arith,
  all start (omega arith) (omega arith),
  for_all_from-all p (start + 1) count (λ i ge lt. all i (omega arith) (omega arith)),
)

and_left : (a b : Bool) → (a && b) ≡ true → a ≡ true
and_left a b e = ground arith

and_right : (a b : Bool) → (a && b) ≡ true → b ≡ true
and_right a b e = ground arith

if_test : (b x : Bool) → b ≡ true → (if not b then true else x) ≡ true → x ≡ true
if_test b x on e = ground (arith, on, e)

equal_test : (a b : ℕ) → a ≡ b → (a == b) ≡ true
equal_test a b e = ground arith

test_equal : (a b : ℕ) → (a == b) ≡ true → a ≡ b
test_equal a b e = ground arith

check_first :
    (step received fuel i : ℕ) (region magic : ℕ → ℕ)
    → i < received
    → check_loop step region magic received (suc fuel) i ≡ true
    → (magic_at region magic i ≡ true)
      × (check_loop step region magic received fuel (i + step) ≡ true)
unfolding check_loop
check_first step received fuel i region magic lt h = (
  and_left _ _ (if_test (ltb i received) _ (lt→ltb i received lt) h),
  and_right (magic_at region magic i) _ (if_test (ltb i received) _ (lt→ltb i received lt) h),
)

second_checked :
    (n : ℕ) (region magic : ℕ → ℕ)
    → 2 ≤ n
    → check_loop 1 region magic n n 0 ≡ true
    → magic_at region magic 1 ≡ true
second_checked zero region magic le h = absurd (omega arith)
second_checked (suc zero) region magic le h = absurd (omega arith)
second_checked (suc (suc n)) region magic le h =
    let behind = (check_first 1 (suc (suc n)) (suc n) 0 region magic (omega arith) h).1 in
    (check_first 1 (suc (suc n)) n 1 region magic (omega arith) behind).0

check_at :
    (received : ℕ) (region magic : ℕ → ℕ) (j fuel i : ℕ)
    → i % 8 ≡ 0
    → j % 8 ≡ 0
    → i ≤ j
    → j < received
    → received ≤ i + fuel
    → check_loop 8 region magic received fuel i ≡ true
    → magic_at region magic j ≡ true
check_at received region magic j zero i word word' le lt enough h = absurd (omega arith)
check_at received region magic j (suc fuel) i word word' le lt enough h =
    let (here, later) = check_first 8 received fuel i region magic (omega arith) h in
    elim (Bool-cases (i == j)) [
      | inl at ↦ subst (λ n. magic_at region magic n ≡ true) (test_equal i j at) here
      | inr behind ↦
          check_at received region magic j fuel (i + 8) (omega arith) word' (ground arith) lt
            (omega arith) later
    ]

-- A last word that is not whole: one byte behind the size that differs is an error.
pub partial_word_fails :
    (received : ℕ) (region magic : ℕ → ℕ)
    → received % 8 ≢ 0
    → region received ≢ magic (received % 8)
    → rdma_failed 8 (some region) magic received ≡ true
unfolding rdma_failed magic_at
partial_word_fails received region magic partial differ =
    elim (Bool-cases (check_loop 8 region magic received received 0)) [
      | inl e ↦
          let j : ℕ = received - received % 8 in
          let k : ℕ = received % 8 in
          let word =
            check_at received region magic j received 0 (omega arith) (omega arith) (omega arith)
              (omega arith) (omega arith) e in
          let read : (region (j + k) == magic k) ≡ true =
            for_all_from-at (λ i. region (j + i) == magic i) 0 8 k (omega arith) (omega arith)
              word in
          let place : j + k ≡ received = omega arith in
          absurd (differ (ap region (sym place) ∙ test_equal (region (j + k)) (magic k) read))
      | inr e ↦ rw e refl
    ]

-- The client wrote the magic number to each word of the region that starts below the size.
module _ (region magic : ℕ → ℕ) (received : ℕ)
    (filled : (i : ℕ) → i - i % 8 < received → region i ≡ magic (i % 8)) where
  magic_at-multiple : (i : ℕ) → i < received → i % 8 ≡ 0 → magic_at region magic i ≡ true
  unfolding magic_at
  magic_at-multiple i below e =
      for_all_from-all (λ k. region (i + k) == magic k) 0 8
        (λ k ge lt.
          let same : (i + k) % 8 ≡ k = omega arith in
          equal_test (region (i + k)) (magic k) (filled (i + k) (omega arith) ∙ ap magic same))

  check_loop-multiple : (fuel i : ℕ) → i % 8 ≡ 0 → check_loop 8 region magic received fuel i ≡ true
  unfolding check_loop
  check_loop-multiple zero i e = refl
  check_loop-multiple (suc fuel) i e =
      let later = check_loop-multiple fuel (i + 8) (omega arith) in
      elim (Bool-cases (ltb i received)) [
        | inl below ↦
            let here = magic_at-multiple i (ground arith) e in ground (arith, below, later, here)
        | inr over ↦ rw over refl
      ]

  magic_at_one :
      (k : ℕ) → 2 ≤ received → k < 7 → magic_at region magic 1 ≡ true → magic k ≡ magic (suc k)
  unfolding magic_at
  magic_at_one k two lt here =
      let same : (1 + k) % 8 ≡ suc k = omega arith in
      let read =
        test_equal (region (1 + k)) (magic k) (
          for_all_from-at (λ j. region (1 + j) == magic j) 0 8 k (omega arith) (omega arith)
            here) in
      sym (sym (filled (1 + k) (omega arith) ∙ ap magic same) ∙ read)

  bytes_fail :
      (k : ℕ)
      → 2 ≤ received
      → k < 7
      → magic k ≢ magic (suc k)
      → rdma_failed 1 (some region) magic received ≡ true
  unfolding rdma_failed
  bytes_fail k two lt differ = elim (Bool-cases (check_loop 1 region magic received received 0)) [
    | inl e ↦ absurd (differ (magic_at_one k two lt (second_checked received region magic two e)))
    | inr e ↦ rw e refl
  ]

  pub filled_passes : rdma_failed 8 (some region) magic received ≡ false
  unfolding rdma_failed
  filled_passes = ground (arith, check_loop-multiple received 0 (omega arith))

  -- After a client has written its magic number to each word of the memory that starts below the
  -- size, the server of axiom-netperf finds no error at the end of the test. The older server, which
  -- compares the magic number at each byte and not at each word, answers with an error, for two bytes
  -- or more, unless all the bytes of the number are equal. The size is small enough for an index of
  -- type int.
  pub daemon_reply-filled :
      (k netutils : ℕ) (s : DaemonStatus)
      → 2 ≤ received
      → received < 2 ^ 31 - 8
      → k < 7
      → magic k ≢ magic (suc k)
      → (rdma_failed 8 (some region) magic received ≡ false)
        × ((daemon_reply netutils (some region) (rdma_end received magic) s).1
            ≡ record { total_bytes = received; error = true; port = netutils } ∷ [])
  unfolding daemon_reply
  daemon_reply-filled k netutils s two fits lt differ = (
    filled_passes,
    ap (λ (b : Bool). record { total_bytes = received; error = b; port = netutils } ∷ [])
        (bytes_fail k two lt differ),
  )
