-- ===== src/Run/Receiver/Barrier.antt =====
-- A barrier opens once all the slaves have reached it, again and again.
use axiom_evi_apps.Prelude.{
  ℕ, zero, suc, ◌+◌, ◌-◌, ◌*◌, ◌/◌, ◌%◌, ◌^◌, ◌≤◌, ◌<◌, ◌≡◌, refl, ◌≢◌, arith, true, false, List,
  [], ◌∷◌, map, ◌==◌, if◌then◌else◌, done, leb, get_or, set, Bool-cases, sym, ap, ◌∙◌, length,
  get_or-set, inl, inr, ◌↔◌,
}
use axiom_evi_apps.Run.Nodes.Laws.{copies, send_raw_lem}
use axiom_evi_apps.Run.Receiver.{Env, Master, reach_barrier, on_barrier, broadcast}
use axiom_evi_apps.Run.Messages.{Message, Effect, send, to_stdout, to_stderr, Header}
use axiom_evi_apps.Bits.{test_bit}

-- The counter of a fresh barrier after k messages, and how often the barrier has opened.
pub arrivals : Env → ℕ → ℕ → ℕ × ℕ
arrivals env nnodes zero = (0, 0)
arrivals env nnodes (suc k) =
    let (counter, opened) = arrivals env nnodes k in
    let (counter', opens) = reach_barrier env nnodes counter in
    (counter', if opens then opened + 1 else opened)

-- The state after q full rounds and r further messages.
record IsRound (nnodes k : ℕ) (state : ℕ × ℕ) : Type 0 where
  late : ℕ
  counted : k ≡ state.1 * nnodes + late
  partial : late < nnodes
  counter : state.0 ≡ (if late == 0 then 0 else nnodes - late)

reach_barrier-IsRound :
    (env : Env) (nnodes k : ℕ) (state : ℕ × ℕ)
    → 0 < nnodes
    → nnodes < 2 ^ 32
    → IsRound nnodes k state
    → IsRound nnodes (suc k) (
      (reach_barrier env nnodes state.0).0,
      if (reach_barrier env nnodes state.0).1 then state.1 + 1 else state.1,
    )
unfolding reach_barrier
reach_barrier-IsRound env nnodes k state pos small h = elim (Bool-cases (h.late + 1 == nnodes)) [
  | inl complete ↦
      let opens : (reach_barrier env nnodes state.0).1 ≡ true = ground (arith, h.counter) in
      let full : h.late + 1 ≡ nnodes = ground arith in
      let counted : suc k ≡ (state.1 + 1) * nnodes + 0 = omega (arith, h.counted) in
      rw opens
        (record { late = 0; counted = counted; partial = pos; counter = ground (arith, h.counter) })
  | inr more ↦
      let waits : (reach_barrier env nnodes state.0).1 ≡ false =
        ground (arith, h.counter, h.partial) in
      let counted : suc k ≡ state.1 * nnodes + (h.late + 1) = omega (arith, h.counted) in
      rw waits (record {
        late = h.late + 1;
        counted = counted;
        partial = ground (arith, h.partial);
        counter = ground (arith, h.counter, h.partial);
      })
]

arrivals-IsRound :
    (env : Env) (nnodes k : ℕ)
    → 0 < nnodes
    → nnodes < 2 ^ 32
    → IsRound nnodes k (arrivals env nnodes k)
unfolding arrivals
arrivals-IsRound env nnodes zero pos small = record {
  late = 0;
  counted = omega arith;
  partial = pos;
  counter = refl;
}
arrivals-IsRound env nnodes (suc k) pos small =
    reach_barrier-IsRound env nnodes k (arrivals env nnodes k) pos small
      (arrivals-IsRound env nnodes k pos small)

-- After k messages for a barrier it has opened k / nnodes times, so at each message that completes
-- a round of nnodes messages and at no other, and between rounds its counter is 0.
pub arrivals_lem :
    (env : Env) (nnodes k : ℕ)
    → 0 < nnodes
    → nnodes < 2 ^ 32
    → ((arrivals env nnodes k).1 ≡ k / nnodes)
      × (((arrivals env nnodes k).0 ≡ 0) ↔ (k % nnodes ≡ 0))
arrivals_lem env nnodes k pos small =
    let h = arrivals-IsRound env nnodes k pos small in
    let rounds : k / nnodes ≡ (arrivals env nnodes k).1 = grind (arith, h.counted, h.partial) in
    let rest : k % nnodes ≡ h.late = grind (arith, h.counted, h.partial) in
    (sym rounds, (λ e. ground (arith, h.counter, h.partial), λ e. ground (arith, h.counter)))

-- How many of the effects are messages to node n.
pub sent_to : ℕ → List Effect → ℕ
sent_to n [] = 0
sent_to n (send m port header raw ∷ es) = (if n == m then 1 else 0) + sent_to n es
sent_to n (to_stdout items ∷ es) = sent_to n es
sent_to n (to_stderr items ∷ es) = sent_to n es

sent_to-map :
    (n port : ℕ) (header : Header) (ns : List ℕ)
    → sent_to n (map (λ (m : ℕ). send m port header []) ns) ≡ copies n ns
unfolding sent_to copies
sent_to-map n port header [] = refl
sent_to-map n port header (m ∷ ns) =
    ap (λ (t : ℕ). (if n == m then 1 else 0) + t) (sent_to-map n port header ns)

-- A message to all goes to each node of the mask once.
pub broadcast_lem :
    (env : Env) (nodes : ℕ) (header : Header)
    → nodes < 2 ^ 64
    → (es : List Effect) × (broadcast env nodes header ≡ done es)
      × ((n : ℕ) → sent_to n es ≡ test_bit nodes n)
unfolding broadcast
broadcast_lem env nodes header fits =
    let (s, ends, once, _) = send_raw_lem env.accepts nodes fits in
    (
      map (λ (m : ℕ). send m env.slave_port header []) s.tried,
      rw (ends, broadcast),
      λ n. sent_to-map n env.slave_port header s.tried ∙ once n,
    )

-- A barrier message with a number in range: the counter of its barrier moves by one message and no
-- other counter does; if the barrier opens, the message goes to every node of the mask once, and
-- else to none.
pub on_barrier_lem :
    (env : Env) (m : Message) (s : Master)
    → s.nodes < 2 ^ 64
    → m.header.barrier_id ≤ 15
    → length s.barrier ≡ 16
    → let id = m.header.barrier_id in
      let result = reach_barrier env s.nnodes (get_or s.barrier id 0) in
      (s' : Master) × (es : List Effect) × (on_barrier env m s ≡ done (s', es))
      × (get_or s'.barrier id 0 ≡ result.0)
      × ((j : ℕ) → j ≢ id → get_or s'.barrier j 0 ≡ get_or s.barrier j 0)
      × ((n : ℕ) → sent_to n es ≡ (if result.1 then test_bit s.nodes n else 0))
unfolding on_barrier
on_barrier_lem env m s fits in_range sized =
    let id = m.header.barrier_id in
    let (counter, opens) = reach_barrier env s.nnodes (get_or s.barrier id 0) in
    let (es, sent, once) = broadcast_lem env s.nodes m.header fits in
    let s' = record s { barrier = set s.barrier id counter } in
    let served : leb id 15 ≡ true = ground arith in
    let slot = λ (j : ℕ). get_or-set s.barrier id j counter 0 (omega arith) in
    elim (Bool-cases opens) [
      | inl yes_opens ↦ (
        s',
        es,
        rw (served, yes_opens, sent) refl,
        ground (arith, slot id),
        λ j ne. ground (arith, slot j),
        λ n. rw yes_opens (once n),
      )
      | inr waits ↦ (
        s',
        [],
        rw (served, waits) refl,
        ground (arith, slot id),
        λ j ne. ground (arith, slot j),
        λ n. rw waits (unfold sent_to in refl),
      )
    ]
