-- ===== src/Discovery/Routing/Links.antt =====
-- The links of a topology and the walks along them; an invariant rule for the loops.
use axiom_evi_apps.Prelude.{ℕ, zero, suc, ◌+◌, ◌≤◌, ◌<◌, ◌≡◌, ◌≢◌, arith}
use axiom_evi_apps.Discovery.Routing.{Net, for_from}

-- Interface i of node m is connected to node t.
pub record IsLink (net : Net) (m i t : ℕ) : Type 0 where
  pub interface : i < net.interfaces
  pub connected : net.topology m i ≡ t
  pub present : t ≢ net.null_node

-- The links lead from node to node, the null node is none of them, and the interfaces are bits of a
-- mask of 8.
pub record IsTopology (net : Net) : Type 0 where
  pub ordered : net.master_id ≤ net.last_node
  pub nodes : (f : ℕ) → f < net.last_node → f ≢ net.null_node
  pub inside :
      (f i t : ℕ) → f < net.last_node → IsLink net f i t → (net.master_id ≤ t) × (t < net.last_node)
  pub few : net.interfaces ≤ 8

-- The walks from node n, by where they end and how many links they take.
pub data Walk (net : Net) (n : ℕ) : ℕ → ℕ → Type 0 where
  here : Walk net n n zero
  hop : {m t j : ℕ} (i : ℕ) → Walk net n m j → IsLink net m i t → Walk net n t (suc j)

-- What one round at each index keeps holds at the end.
pub for_from_inv {ℓ κ} :
    {S : Type ℓ} (P : ℕ → S → Type κ) (body : ℕ → S → S) (end : ℕ)
    → ((i : ℕ) (s : S) → i < end → P i s → P (i + 1) (body i s))
    → (left i : ℕ) (s : S) → i + left ≡ end
    → P i s
    → P end (for_from left i body s)
unfolding for_from
for_from_inv P body end keep zero i s e h = let same : i ≡ end = omega arith in rw (← same) h
for_from_inv P body end keep (suc left) i s e h =
    for_from_inv P body end keep left (i + 1) (body i s) (omega arith) (keep i s (omega arith) h)
