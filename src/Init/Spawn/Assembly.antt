-- ===== src/Init/Spawn/Assembly.antt =====
-- The messages of a session build its launch, whatever other sessions do in between.
use axiom_evi_apps.Prelude.{
  ℕ, zero, suc, ◌<◌, ◌≡◌, refl, ◌≢◌, ◌∙◌, arith, Bool, true, false, List, [], ◌∷◌, none, some,
  Outcome, done, ltb, ◌==◌, if◌then◌else◌, Bool-cases, Option-cases, inl, inr, length, get_or, ◌&&◌,
  set,
}
use axiom_evi_apps.Bits.{test_bit}
use axiom_evi_apps.Bits.Words.{set_bit}
use axiom_evi_apps.Init.Session.{used}
use axiom_evi_apps.Init.Session.Handler.{used_lem, release_in_range, used-set_bit, used-busy}
use axiom_evi_apps.Init.Spawn.{
  Slot, Request, Launch, State, Part, no_slot, clear, store, assemble, launch_of, find_slot,
  serve_slot, in_slots, spawn_req,
}
use axiom_evi_apps.Init.Spawn.Slots.{lookup, lookup-set_other, find_slot-Has, find_slot-HasNot}

assemble-session_id :
    (max_data : ℕ) (reset : Bool) (req : Request) (slot : Slot)
    → (assemble max_data reset req slot).session_id ≡ slot.session_id
unfolding assemble store clear
assemble-session_id max_data reset req slot =
    stored req.part _ (if reset then clear slot else slot) ∙ cleared reset
  where
    stored : (p : Part) (text : List ℕ) (t : Slot) → (store p text t).session_id ≡ t.session_id
    stored Part.exe_part text t = refl
    stored Part.cwd_part text t = refl
    stored Part.arg_part text t = refl
    stored Part.env_part text t = refl
    stored Part.unknown_part text t = refl

    cleared : (b : Bool) → (if b then clear slot else slot).session_id ≡ slot.session_id
    cleared true = refl
    cleared false = refl

get_or_twice : (xs : List Slot) (i : ℕ) (d : Slot) → get_or xs i (get_or xs i d) ≡ get_or xs i d
get_or_twice [] i d = refl
get_or_twice (x ∷ xs) zero d = refl
get_or_twice (x ∷ xs) (suc i) d = get_or_twice xs i d

module _ (empty max_data : ℕ) (above : 32 < empty) where
  -- What serving the slot of one session leaves to another.
  pub record LeavesOther (other : ℕ) (s : State) (result : Outcome (State × List Launch))
      : Type 0 where
    pub r : State × List Launch
    pub returns : result ≡ done r
    pub same_slot : lookup other r.0.slots ≡ lookup other s.slots
    pub same_used : used other r.0.sessions ≡ used other s.sessions

  unchanged : (other : ℕ) (s : State) → LeavesOther other s (done (s, []))
  unchanged other s = record { r = (s, []); returns = refl; same_slot = refl; same_used = refl }

  serve_slot-LeavesOther :
      (other : ℕ) (req : Request) (reset : Bool) (idx : ℕ) (slot : Slot) (s : State)
      → slot.session_id < 32
      → slot.session_id ≢ other
      → other < 32
      → (get_or s.slots idx (no_slot empty)).session_id ≢ other
      → LeavesOther other s (serve_slot empty max_data req reset idx slot s)
  unfolding serve_slot
  serve_slot-LeavesOther other req reset idx slot s lt ne small before =
      let slot' = assemble max_data reset req slot in
      let id = assemble-session_id max_data reset req slot in
      let old = get_or s.slots idx (no_slot empty) in
      let freed = release_in_range slot'.session_id s.sessions (omega (arith, id)) in
      let emptied = record (clear slot') { session_id = empty } in
      elim (Bool-cases req.flag_exec) [
        | inl exec ↦ record {
          r = (
            record {
              slots = set s.slots idx emptied;
              sessions = set_bit s.sessions slot'.session_id;
            },
            launch_of slot' ∷ [],
          );
          returns = rw (exec, freed) refl;
          same_slot =
              lookup-set_other other s.slots idx old emptied
                (get_or_twice s.slots idx (no_slot empty)) before (omega arith);
          same_used =
              used-set_bit slot'.session_id other s.sessions (omega (arith, id)) (omega arith);
        }
        | inr no_exec ↦ record {
          r = (record s { slots = set s.slots idx slot' }, []);
          returns = rw no_exec refl;
          same_slot =
              lookup-set_other other s.slots idx old slot'
                (get_or_twice s.slots idx (no_slot empty)) before (omega (arith, id));
          same_used = refl;
        }
      ]

  in_slots-LeavesOther :
      (other : ℕ) (req : Request) (s : State)
      → req.session_id < 32
      → req.session_id ≢ other
      → other < 32
      → LeavesOther other s (in_slots empty max_data req s)
  unfolding in_slots
  in_slots-LeavesOther other req s lt ne small =
      elim (Option-cases (lookup req.session_id s.slots)) [
        | inr (slot, has) ↦
            let h = find_slot-Has empty req.session_id s.slots slot (no_slot empty) 0 none has in
            let hit : (find_slot empty req.session_id s.slots 0 none).0 ≡ h.at =
              omega (arith, h.found) in
            let inside : ltb h.at (length s.slots) ≡ true = ground (arith, h.in_range) in
            rw (hit, inside, h.here)
              (serve_slot-LeavesOther other req req.flag_reset h.at slot s (omega (arith, h.own))
                (omega (arith, h.own)) small (rw h.here (omega (arith, h.own))))
        | inl hasnt ↦
            let h = find_slot-HasNot empty req.session_id s.slots (no_slot empty) 0 none hasnt in
            let miss : ltb (find_slot empty req.session_id s.slots 0 none).0 (length s.slots)
                ≡ false =
              ground (arith, h.to_end) in
            elim (Option-cases (find_slot empty req.session_id s.slots 0 none).1) [
              | inl full ↦ rw (miss, full) (unchanged other s)
              | inr (j, free) ↦
                  rw (miss, free)
                    (serve_slot-LeavesOther other req true j
                      (record (get_or s.slots j (no_slot empty)) { session_id = req.session_id }) s
                      lt ne small (ground (arith, h.is_free j free)))
            ]
      ]

  pub spawn_req-LeavesOther :
      (other : ℕ) (req : Request) (s : State)
      → req.session_id ≢ 32
      → req.session_id ≢ other
      → other < 32
      → LeavesOther other s (spawn_req empty max_data req s)
  unfolding spawn_req
  spawn_req-LeavesOther other req s in_word ne small = elim (Bool-cases req.is_request) [
    | inr no_request ↦ rw no_request (unchanged other s)
    | inl request ↦
        let known = used_lem req.session_id s.sessions in_word in
        elim (Bool-cases (ltb req.session_id 32 && (test_bit s.sessions req.session_id == 0))) [
          | inl busy ↦
              rw (request, known, busy) (in_slots-LeavesOther other req s (ground arith) ne small)
          | inr idle ↦ rw (request, known, idle) (unchanged other s)
        ]
  ]

  -- A message of a session that has a slot.
  pub record ServesOwn (req : Request) (slot : Slot) (s : State)
      (result : Outcome (State × List Launch)) : Type 0 where
    pub r : State × List Launch
    pub returns : result ≡ done r
    pub kept :
        req.flag_exec ≡ false
        → (lookup req.session_id r.0.slots ≡ some (assemble max_data req.flag_reset req slot))
          × (r.0.sessions ≡ s.sessions)
    pub launched :
        req.flag_exec ≡ true → r.1 ≡ launch_of (assemble max_data req.flag_reset req slot) ∷ []

  pub spawn_req-ServesOwn :
      (req : Request) (slot : Slot) (s : State)
      → req.is_request ≡ true
      → req.session_id ≢ 32
      → used req.session_id s.sessions ≡ done true
      → lookup req.session_id s.slots ≡ some slot
      → ServesOwn req slot s (spawn_req empty max_data req s)
  unfolding spawn_req in_slots serve_slot
  spawn_req-ServesOwn req slot s request in_word busy has =
      let h = find_slot-Has empty req.session_id s.slots slot (no_slot empty) 0 none has in
      let hit : (find_slot empty req.session_id s.slots 0 none).0 ≡ h.at = omega (arith, h.found) in
      let inside : ltb h.at (length s.slots) ≡ true = ground (arith, h.in_range) in
      let slot' = assemble max_data req.flag_reset req slot in
      let id = assemble-session_id max_data req.flag_reset req slot in
      let lt = used-busy req.session_id s.sessions in_word busy in
      let freed = release_in_range slot'.session_id s.sessions (omega (arith, id, h.own)) in
      elim (Bool-cases req.flag_exec) [
        | inl exec ↦ record {
          r = (
            record {
              slots = set s.slots h.at (record (clear slot') { session_id = empty });
              sessions = set_bit s.sessions slot'.session_id;
            },
            launch_of slot' ∷ [],
          );
          returns = rw (request, busy, hit, inside, h.here, exec, freed) refl;
          kept = λ no_exec. absurd (ground arith);
          launched = λ _. refl;
        }
        | inr no_exec ↦ record {
          r = (record s { slots = set s.slots h.at slot' }, []);
          returns = rw (request, busy, hit, inside, h.here, no_exec) refl;
          kept = λ _. (h.replaced slot' (id ∙ h.own), refl);
          launched = λ exec. absurd (ground arith);
        }
      ]
