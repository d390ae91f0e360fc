-- ===== src/Run/Nodes/Laws.antt =====
-- The loops over the mask end, and reach each node of the mask once.
use axiom_evi_apps.Prelude.{
  ℕ, zero, suc, ◌+◌, ◌/◌, ◌%◌, ◌^◌, ◌<◌, ◌≡◌, refl, arith, Bool, true, List, [], ◌∷◌, some, ◌==◌,
  ◌&&◌, if◌then◌else◌, length, ap, All, ◌↔◌, sym, ◌∙◌,
}
use axiom_evi_apps.Bits.{test_bit, test_bit-zero}
use axiom_evi_apps.Bits.Words.{popcount, popcount-zero, lt-half}
use axiom_evi_apps.Run.Nodes.{Sent, add_target, send_loop, send_raw, count_loop, count_nodes}

-- The nodes of a mask of w bits, whose lowest bit stands for `node`.
unfoldable pub targets : ℕ → ℕ → ℕ → List ℕ
targets zero node nodes = []
targets (suc w) node nodes =
    if nodes % 2 == 1
    then node ∷ targets w (node + 1) (nodes / 2)
    else targets w (node + 1) (nodes / 2)

abbrev all_accepted : (ℕ → Bool) → List ℕ → Bool
all_accepted accepts [] = true
all_accepted accepts (n ∷ ns) = accepts n && all_accepted accepts ns

pub targets-zero : (w node nodes : ℕ) → nodes ≡ 0 → targets w node nodes ≡ []
unfolding targets
targets-zero zero node nodes e = refl
targets-zero (suc w) node nodes e = ground (arith, targets-zero w (node + 1) (nodes / 2))

all_accepted_iff :
    (accepts : ℕ → Bool) (ns : List ℕ)
    → (all_accepted accepts ns ≡ true) ↔ All (λ n. accepts n ≡ true) ns
all_accepted_iff accepts [] = (λ _. tt, λ _. refl)
all_accepted_iff accepts (n ∷ ns) = ground (arith, all_accepted_iff accepts ns)

abbrev pub result : (ℕ → Bool) → List ℕ → Sent
result accepts ns = record { tried = ns; all_ok = all_accepted accepts ns }

pub send_loop_lem :
    (accepts : ℕ → Bool) (w node nodes : ℕ)
    → nodes < 2 ^ w
    → node + w < 2 ^ 8
    → send_loop accepts w node nodes ≡ some (result accepts (targets w node nodes))
unfolding send_loop targets add_target
send_loop_lem accepts zero node nodes fits small = ground arith
send_loop_lem accepts (suc w) node nodes fits small =
    let wrap : (node + 1) % 2 ^ 8 ≡ node + 1 = omega arith in
    let rest =
      send_loop_lem accepts w (node + 1) (nodes / 2) (lt-half w nodes fits) (omega arith) in
    rw (wrap, rest) (ground (arith, targets-zero w (node + 1) (nodes / 2)))

-- How often a node stands in a list.
unfoldable pub copies : ℕ → List ℕ → ℕ
copies n [] = 0
copies n (m ∷ ms) = (if n == m then 1 else 0) + copies n ms

copies-targets_below : (w node nodes n : ℕ) → n < node → copies n (targets w node nodes) ≡ 0
unfolding copies targets
copies-targets_below zero node nodes n lt = refl
copies-targets_below (suc w) node nodes n lt =
    ground (arith, copies-targets_below w (node + 1) (nodes / 2) n)

copies-targets :
    (w node nodes k : ℕ)
    → nodes < 2 ^ w
    → copies (node + k) (targets w node nodes) ≡ test_bit nodes k
unfolding copies targets test_bit
copies-targets zero node nodes k fits =
    let e : nodes ≡ 0 = omega arith in rw e (sym (test_bit-zero k))
copies-targets (suc w) node nodes zero fits =
    let e : node + 0 ≡ node = omega arith in
    rw e (ground (arith, copies-targets_below w (node + 1) (nodes / 2) node))
copies-targets (suc w) node nodes (suc k) fits =
    let e : node + suc k ≡ node + 1 + k = omega arith in
    rw e (ground (arith, copies-targets w (node + 1) (nodes / 2) k (lt-half w nodes fits)))

pub copies_at :
    (w node nodes k n : ℕ)
    → nodes < 2 ^ w
    → n ≡ node + k
    → copies n (targets w node nodes) ≡ test_bit nodes k
copies_at w node nodes k n fits e =
    ap (λ (t : ℕ). copies t (targets w node nodes)) e ∙ copies-targets w node nodes k fits

length-targets : (w node nodes : ℕ) → length (targets w node nodes) ≡ popcount w nodes
unfolding targets popcount
length-targets zero node nodes = refl
length-targets (suc w) node nodes = ground (arith, length-targets w (node + 1) (nodes / 2))

pub send_raw-targets :
    (accepts : ℕ → Bool) (nodes : ℕ)
    → nodes < 2 ^ 64
    → send_raw accepts nodes ≡ some (result accepts (targets 64 0 nodes))
unfolding send_raw
send_raw-targets accepts nodes fits = send_loop_lem accepts 64 0 nodes fits (omega arith)

-- For every 64-bit mask the loop ends, hands the message to the NIC once for each node whose bit is
-- set and for no other, and reports success exactly if the NIC accepted each of them.
pub send_raw_lem :
    (accepts : ℕ → Bool) (nodes : ℕ)
    → nodes < 2 ^ 64
    → (s : Sent) × (send_raw accepts nodes ≡ some s)
      × ((n : ℕ) → copies n s.tried ≡ test_bit nodes n)
      × ((s.all_ok ≡ true) ↔ All (λ n. accepts n ≡ true) s.tried)
unfolding send_raw
send_raw_lem accepts nodes fits = (
  result accepts (targets 64 0 nodes),
  send_loop_lem accepts 64 0 nodes fits (omega arith),
  λ n. copies_at 64 0 nodes n n fits (omega arith),
  all_accepted_iff accepts (targets 64 0 nodes),
)

popcount_of_zero : (w x : ℕ) → x ≡ 0 → popcount w x ≡ 0
popcount_of_zero w x e = ap (popcount w) e ∙ popcount-zero w

count_loop_lem : (w n acc : ℕ) → n < 2 ^ w → count_loop w n acc ≡ some (acc + popcount w n)
unfolding count_loop popcount
count_loop_lem zero n acc fits = ground arith
count_loop_lem (suc w) n acc fits = ground (
  arith,
  count_loop_lem w (n / 2) (if n % 2 == 1 then acc + 1 else acc) (lt-half w n fits),
  popcount_of_zero w (n / 2),
)

pub count_nodes-targets :
    (nodes : ℕ) → nodes < 2 ^ 64 → count_nodes nodes ≡ some (length (targets 64 0 nodes))
unfolding count_nodes
count_nodes-targets nodes fits =
    count_loop_lem 64 nodes 0 fits ∙ ap some (omega (arith, length-targets 64 0 nodes))

-- The count of slaves is the number of nodes that a message to all of them goes to.
pub count_nodes-send_raw :
    (accepts : ℕ → Bool) (nodes : ℕ)
    → nodes < 2 ^ 64
    → (s : Sent) × (send_raw accepts nodes ≡ some s) × (count_nodes nodes ≡ some (length s.tried))
unfolding send_raw
count_nodes-send_raw accepts nodes fits = (
  result accepts (targets 64 0 nodes),
  send_loop_lem accepts 64 0 nodes fits (omega arith),
  count_nodes-targets nodes fits,
)
