-- ===== src/Discovery/Activation/Flood.antt =====
-- A node writes its table before it passes the message on, and takes in one message of every
-- interface.
use axiom_evi_apps.Prelude.{
  ℕ, zero, suc, ◌+◌, ◌-◌, ◌≡◌, refl, ◌∙◌, ap, arith, Bool, true, false, List, [], ◌∷◌, ◌++◌, map,
  Option, some, if◌then◌else◌, Bool-cases, inl, inr, length, replicate,
}
use axiom_evi_apps.Discovery.Activation.{
  Action, write_table, send_set, success, Phase, and_next, receive_any, wait_set, send_all,
  connections, set_slave,
}

-- The connected interfaces from i on.
unfoldable pub neighbours : (ℕ → Bool) → ℕ → ℕ → List ℕ
neighbours connected zero i = []
neighbours connected (suc n) i =
    let rest = neighbours connected n (i + 1) in if connected i then i ∷ rest else rest

send_all_lem :
    (connected accepted : ℕ → Bool) (n i : ℕ) (ms : List (Option Bool))
    → ((j : ℕ) → accepted j ≡ true)
    → send_all connected accepted n i ms
      ≡ record { actions = map send_set (neighbours connected n i); end = success; left = ms }
unfolding send_all neighbours
send_all_lem connected accepted zero i ms all = refl
send_all_lem connected accepted (suc n) i ms all = elim (Bool-cases (connected i)) [
  | inl joined ↦ rw (joined, all i, send_all_lem connected accepted n (i + 1) ms all) refl
  | inr apart ↦ rw apart (send_all_lem connected accepted n (i + 1) ms all)
]

length-neighbours :
    (connected accepted : ℕ → Bool) (n i : ℕ)
    → length (neighbours connected n i) ≡ connections connected accepted n i
unfolding neighbours connections
length-neighbours connected accepted zero i = refl
length-neighbours connected accepted (suc n) i =
    ground (arith, length-neighbours connected accepted n (i + 1))

receive_any_lem :
    (n : ℕ) (bs : List Bool) (rest : List (Option Bool))
    → length bs ≡ n
    → receive_any n (map some bs ++ rest) ≡ record { actions = []; end = success; left = rest }
unfolding receive_any
receive_any_lem zero [] rest e = refl
receive_any_lem zero (b ∷ bs) rest e = absurd (omega arith)
receive_any_lem (suc n) [] rest e = absurd (omega arith)
receive_any_lem (suc n) (b ∷ bs) rest e = receive_any_lem n bs rest (omega arith)

wait_set_lem :
    (table : ℕ → ℕ) (k : ℕ) (ms : List (Option Bool))
    → wait_set table (replicate k (some false) ++ some true ∷ ms)
      ≡ record { actions = write_table table ∷ []; end = success; left = ms }
unfolding wait_set
wait_set_lem table zero ms = refl
wait_set_lem table (suc k) ms = wait_set_lem table k ms

and_next-success :
    (p : Phase) (next : List (Option Bool) → Phase) (a : List Action) (ms : List (Option Bool))
    → p ≡ record { actions = a; end = success; left = ms }
    → and_next p next ≡ record (next ms) { actions = a ++ (next ms).actions }
unfolding and_next
and_next-success p next a ms e = ap (λ (q : Phase). and_next q next) e

-- If the sends are accepted, a slave to which some other commands, a set message and then one
-- message for each of its further connected interfaces arrive succeeds and leaves the messages
-- behind these. It writes the table that it is given once, before it passes the message on, once over each
-- connected interface in order.
pub set_slave_lem :
    (connected accepted : ℕ → Bool) (table : ℕ → ℕ) (interfaces k : ℕ) (bs : List Bool)
    (rest : List (Option Bool))
    → ((j : ℕ) → accepted j ≡ true)
    → length bs ≡ length (neighbours connected interfaces 0) - 1
    → set_slave connected accepted table interfaces
        (replicate k (some false) ++ (some true ∷ (map some bs ++ rest)))
      ≡ record {
        actions = write_table table ∷ (map send_set (neighbours connected interfaces 0) ++ []);
        end = success;
        left = rest;
      }
unfolding set_slave
set_slave_lem connected accepted table interfaces k bs rest all enough =
    let waited = wait_set_lem table k (map some bs ++ rest) in
    let passed = send_all_lem connected accepted interfaces 0 (map some bs ++ rest) all in
    let taken =
      receive_any_lem (connections connected accepted interfaces 0 - 1) bs rest
        (omega (arith, enough, length-neighbours connected accepted interfaces 0)) in
    let messages = map some bs ++ rest in
    let reached = neighbours connected interfaces 0 in
    let receive = receive_any (connections connected accepted interfaces 0 - 1) in
    let pass_on =
      λ (ms : List (Option Bool)). and_next (send_all connected accepted interfaces 0 ms) receive in
    and_next-success (wait_set table (replicate k (some false) ++ some true ∷ messages)) pass_on
      (write_table table ∷ []) messages waited
    ∙ ap (λ (q : Phase). record q { actions = write_table table ∷ q.actions })
        (and_next-success (send_all connected accepted interfaces 0 messages) receive
            (map send_set reached) messages passed
          ∙ ap (λ (q : Phase). record q { actions = map send_set reached ++ q.actions }) taken)
