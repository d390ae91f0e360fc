-- ===== src/Run/Launch/Tests.antt =====
-- Runs of the launcher.
use axiom_evi_apps.Prelude.{
  ℕ, ◌^◌, ◌≡◌, refl, arith, Bool, true, List, [], ◌∷◌, some, done, ◌==◌, not,
}
use axiom_evi_apps.Bits.{test_bit}
use axiom_evi_apps.Run.Nodes.Laws.{copies}
use axiom_evi_apps.Run.Options.{Config, initial}
use axiom_evi_apps.Run.Options.Nodes.{all_nodes_mask, clz, clz_loop}
use axiom_evi_apps.Run.Launch.{choose_nodes, Started, start, Received, receive_error, received}
use axiom_evi_apps.Run.Launch.Choice.{choose_nodes-one_too_many}
use axiom_evi_apps.Run.Launch.Starting.{Ascending, asked_in_turn, start_lem}

-- Node 5 was named in a network of two nodes: it is dropped, and node 1 stays.
cropped : choose_nodes 2 0x22 ≡ done 0x02
unfolding choose_nodes all_nodes_mask clz clz_loop
cropped = refl

choose_nodes-one_too_many_example : choose_nodes 2 (2 ^ 3) ≡ done (2 ^ 3)
choose_nodes-one_too_many_example = choose_nodes-one_too_many 2 (omega arith)

-- The spawn on node 3 is refused.
abbrev spawn : ℕ → Bool → Bool
spawn node debug = not (node == 3)

start_lem_example :
    (s : Started) × (start spawn (λ n. true) 0x1a 0x02 ≡ some s)
    × (s.spawns ≡ asked_in_turn spawn 0x02 s.notified)
    × Ascending s.notified
    × ((n : ℕ) → copies n s.notified ≡ test_bit 0x1a n)
start_lem_example = start_lem spawn (λ n. true) 0x1a 0x02 (omega arith)

abbrev early : List Received
early = receive_error ∷ received 0x87 5 ∷ received 0x81 9 ∷ []

-- A=1, kept, and a word that is no assignment.
abbrev environ : List (List ℕ)
environ = (65 ∷ 61 ∷ 49 ∷ []) ∷ ((66 ∷ []) ∷ [])

abbrev master : Config
master = record initial { services = 0x07; nodes = 0x06; port = some 4; magic = 12 }
