-- ===== src/Init/Spawn/Series.antt =====
-- A series of messages of several sessions, up to the launch of one.
use axiom_evi_apps.Prelude.{
  ℕ, ◌<◌, ◌≡◌, refl, ◌≢◌, sym, ◌∙◌, ap, arith, true, false, List, [], ◌∷◌, ◌++◌, some, done, ◌==◌,
  ◌&&◌, if◌then◌else◌, Bool-cases, inl, inr, All,
}
use axiom_evi_apps.Init.Session.{used}
use axiom_evi_apps.Init.Spawn.{
  Slot, Request, Launch, State, assemble, launch_of, spawn_req, spawn_all,
}
use axiom_evi_apps.Init.Spawn.Slots.{lookup}
use axiom_evi_apps.Init.Spawn.Assembly.{spawn_req-LeavesOther, spawn_req-ServesOwn}

-- The slot that the messages of one session build.
unfoldable pub assembled : ℕ → ℕ → List Request → Slot → Slot
assembled max_data session [] slot = slot
assembled max_data session (req ∷ reqs) slot =
    if req.is_request && req.session_id == session
    then assembled max_data session reqs (assemble max_data req.flag_reset req slot)
    else assembled max_data session reqs slot

-- A message that does not launch the session. Its own session is not the width of the mask.
abbrev pub IsPart : ℕ → Request → Type 0
IsPart session req = (req.session_id ≢ 32) × (req.session_id ≡ session → req.flag_exec ≡ false)

module _ (empty max_data : ℕ) (above : 32 < empty) (session : ℕ) (small : session < 32) where
  -- The session keeps its number and its slot holds the parts.
  abbrev Builds : Slot → State → Type 0
  Builds slot s = (lookup session s.slots ≡ some slot) × (used session s.sessions ≡ done true)

  ignored :
      (req : Request) (s : State)
      → req.is_request ≡ false
      → spawn_req empty max_data req s ≡ done (s, [])
  unfolding spawn_req
  ignored req s other_command = rw other_command refl

  serves_next :
      (req : Request) (reqs : List Request) (s : State) (r q : State × List Launch)
      → spawn_req empty max_data req s ≡ done r
      → spawn_all empty max_data reqs r.0 ≡ done q
      → spawn_all empty max_data (req ∷ reqs) s ≡ done (q.0, r.1 ++ q.1)
  unfolding spawn_all
  serves_next req reqs s r q first rest = rw (first, rest, spawn_all) refl

  spawn_all-Builds :
      (reqs : List Request) (slot : Slot) (s : State)
      → All (IsPart session) reqs
      → Builds slot s
      → (r : State × List Launch) × (spawn_all empty max_data reqs s ≡ done r)
        × Builds (assembled max_data session reqs slot) r.0
  unfolding spawn_all assembled
  spawn_all-Builds [] slot s all h = ((s, []), refl, h)
  spawn_all-Builds (req ∷ reqs) slot s all h = elim (Bool-cases (req.session_id == session)) [
    | inr other ↦
        let e =
          spawn_req-LeavesOther empty max_data above session req s all.0.0 (ground arith) small in
        let same : Builds slot e.r.0 = (e.same_slot ∙ h.0, e.same_used ∙ h.1) in
        let (q, rest, built) = spawn_all-Builds reqs slot e.r.0 all.1 same in
        ((q.0, e.r.1 ++ q.1), serves_next req reqs s e.r q e.returns rest, ground (arith, built))
    | inl own ↦
        let number : req.session_id ≡ session = ground arith in
        elim (Bool-cases req.is_request) [
          | inr other_command ↦
              let (q, rest, built) = spawn_all-Builds reqs slot s all.1 h in
              (
                (q.0, [] ++ q.1),
                serves_next req reqs s (s, []) q (ignored req s other_command) rest,
                rw other_command built,
              )
          | inl request ↦
              let e =
                spawn_req-ServesOwn empty max_data above req slot s request all.0.0
                  (ap (λ (n : ℕ). used n s.sessions) number ∙ h.1)
                  (ap (λ (n : ℕ). lookup n s.slots) number ∙ h.0) in
              let (placed, kept) = e.kept (all.0.1 number) in
              let next : Builds (assemble max_data req.flag_reset req slot) e.r.0 = (
                sym (ap (λ (n : ℕ). lookup n e.r.0.slots) number) ∙ placed,
                ap (used session) kept ∙ h.1,
              ) in
              let added : assembled max_data session (req ∷ reqs) slot
                  ≡ assembled max_data session reqs (assemble max_data req.flag_reset req slot) =
                rw (request, own) refl in
              let (q, rest, built) =
                spawn_all-Builds reqs (assemble max_data req.flag_reset req slot) e.r.0 all.1
                  next in
              (
                (q.0, e.r.1 ++ q.1),
                serves_next req reqs s e.r q e.returns rest,
                (built.0 ∙ ap some (sym added), built.1),
              )
        ]
  ]

  -- A session in use that has a slot, any messages of this and other sessions of which none launches
  -- this session or names session 32, and then a message that launches it: the daemon serves them
  -- all, and the last one launches exactly what the messages of this session put into its slot.
  pub spawn_req-launches :
      (reqs : List Request) (last : Request) (slot : Slot) (s : State)
      → All (IsPart session) reqs
      → lookup session s.slots ≡ some slot
      → used session s.sessions ≡ done true
      → last.is_request ≡ true
      → last.session_id ≡ session
      → last.flag_exec ≡ true
      → (r : State × List Launch) × (q : State × List Launch) × (spawn_all empty max_data reqs s
          ≡ done r)
        × (spawn_req empty max_data last r.0 ≡ done q)
        × (q.1
            ≡ launch_of
                (assemble max_data last.flag_reset last (assembled max_data session reqs slot))
              ∷ [])
  spawn_req-launches reqs last slot s all has busy request number exec =
      let (r, served, built) = spawn_all-Builds reqs slot s all (has, busy) in
      let e =
        spawn_req-ServesOwn empty max_data above last (assembled max_data session reqs slot) r.0
          request (omega arith) (ap (λ (n : ℕ). used n r.0.sessions) number ∙ built.1)
          (ap (λ (n : ℕ). lookup n r.0.slots) number ∙ built.0) in
      (r, e.r, served, e.returns, e.launched exec)
