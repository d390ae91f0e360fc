-- ===== src/Discovery/Activation/Tests.antt =====
-- A run of the set message at a node with two neighbours.
use axiom_evi_apps.Prelude.{
  ℕ, ◌≡◌, refl, Bool, true, false, [], ◌∷◌, ◌++◌, map, none, some, ltb, replicate,
}
use axiom_evi_apps.Discovery.Activation.{write_table, send_set, success, set_loopback, set_slave}
use axiom_evi_apps.Discovery.Activation.Flood.{neighbours, set_slave_lem}

abbrev connected : ℕ → Bool
connected i = ltb i 2

abbrev accepted : ℕ → Bool
accepted i = true

two_neighbours : neighbours connected 4 0 ≡ 0 ∷ 1 ∷ []
unfolding neighbours
two_neighbours = refl

set_slave_lem_example :
    set_slave connected accepted
      (set_loopback 3 1 (λ t. 2))
      4
      (replicate 1 (some false) ++ (some true ∷ (map some (true ∷ []) ++ none ∷ [])))
    ≡ record {
      actions =
          write_table (set_loopback 3 1 (λ t. 2)) ∷ (map send_set (neighbours connected 4 0) ++ []);
      end = success;
      left = none ∷ [];
    }
set_slave_lem_example =
    set_slave_lem connected accepted (set_loopback 3 1 (λ t. 2)) 4 1 (true ∷ []) (none ∷ [])
      (λ j. refl) (unfold neighbours in refl)
