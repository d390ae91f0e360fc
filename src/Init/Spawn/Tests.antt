-- ===== src/Init/Spawn/Tests.antt =====
-- Runs of the spawn requests.
use axiom_evi_apps.Prelude.{ℕ, ◌≡◌, refl, arith, true, false, List, [], ◌∷◌, some, done}
use axiom_evi_apps.Bits.{test_bit}
use axiom_evi_apps.Init.Session.Handler.{used_lem}
use axiom_evi_apps.Init.Spawn.{
  Slot, Request, Launch, State, Part, no_slot, assemble, launch_of, store, data_string, spawn_req,
  spawn_all, c_string,
}
use axiom_evi_apps.Init.Spawn.Slots.{lookup}
use axiom_evi_apps.Init.Spawn.Series.{assembled, spawn_req-launches}

abbrev part : ℕ → Part → List ℕ → Request
part session p bytes = record {
  is_request = true;
  session_id = session;
  flag_reset = false;
  flag_exec = false;
  part = p;
  data_bytes = bytes;
}

abbrev start : Slot
start = record (no_slot 255) { session_id = 3; exec = some (108 ∷ 115 ∷ []) }

abbrev one_session : State
one_session = record {
  slots = no_slot 255 ∷ start ∷ no_slot 255 ∷ no_slot 255 ∷ [];
  sessions = 0b10000;
}

abbrev parts : List Request
parts = part 3 Part.arg_part (45 ∷ 97 ∷ 0 ∷ []) ∷ part 2 Part.exe_part (109 ∷ 0 ∷ []) ∷ []

abbrev last : Request
last = record (part 3 Part.arg_part (98 ∷ 0 ∷ [])) { flag_exec = true }

own_parts :
    (launch_of (assemble 8 false last (assembled 8 3 parts start))).args
    ≡ (45 ∷ 97 ∷ []) ∷ (98 ∷ []) ∷ []
unfolding assembled assemble launch_of store data_string c_string
own_parts = refl

spawn_req-launches_example :
    (r : State × List Launch) × (q : State × List Launch) × (spawn_all 255 8 parts one_session
      ≡ done r)
    × (spawn_req 255 8 last r.0 ≡ done q)
    × (q.1 ≡ launch_of (assemble 8 last.flag_reset last (assembled 8 3 parts start)) ∷ [])
spawn_req-launches_example =
    spawn_req-launches 255 8 (omega arith) 3 (omega arith) parts last start one_session
      ((omega arith, λ e. refl), ((omega arith, λ e. refl), tt)) (unfold lookup in refl)
      (unfold test_bit in used_lem 3 0b10000 (omega arith)) refl refl refl
