-- ===== src/Run/Sender/Stdin.antt =====
-- From the master's standard input to that of the children.
use axiom_evi_apps.Prelude.{
  ℕ, ◌+◌, ◌^◌, ◌<◌, ◌≡◌, refl, sym, arith, ap, ◌∙◌, Bool, true, false, List, [], ◌∷◌, ◌++◌, map,
  Outcome, done, aborted, undefined, ◌==◌, if◌then◌else◌, Bool-cases, inl, inr,
}
use axiom_evi_apps.Bits.{test_bit}
use axiom_evi_apps.Run.Messages.{
  Header, Effect, to_stdout, to_stderr, send, cmd_recv_from_stdin, has_service, redirect_service,
}
use axiom_evi_apps.Run.Nodes.Laws.{targets, copies, copies_at, send_raw-targets}
use axiom_evi_apps.Run.Slave.Receive.{
  Info, Arrival, select_interrupted, select_failed, end_request, receive_failed, arrived,
  recv_thread,
}
use axiom_evi_apps.Run.Slave.Stdin.{fed, sent_to_stdin, AllTake, recv_thread-stdin}
use axiom_evi_apps.Run.Sender.{
  StdinRound, woken, select_error, end_asked, read_again, read_error, got, Link, stdin_header,
  send_to_slaves, master_sender,
}

-- The bytes that are read, up to the end of the thread.
unfoldable pub read_bytes : List StdinRound → List ℕ
read_bytes [] = []
read_bytes (woken ∷ more) = read_bytes more
read_bytes (select_error ∷ more) = []
read_bytes (end_asked ∷ more) = []
read_bytes (read_again ∷ more) = read_bytes more
read_bytes (read_error ∷ more) = []
read_bytes (got xs ∷ more) = xs ++ read_bytes more

-- The messages for the standard input that are sent to a node.
unfoldable pub stdin_to : ℕ → List Effect → List (List ℕ)
stdin_to n [] = []
stdin_to n (to_stdout items ∷ es) = stdin_to n es
stdin_to n (to_stderr items ∷ es) = stdin_to n es
stdin_to n (send k port header raw ∷ es) =
    let rest = stdin_to n es in
    if n == k then (if header.command == cmd_recv_from_stdin then raw ∷ rest else rest) else rest

abbrev pub sends : Outcome (List Effect × Bool) → List Effect
sends (done r) = r.0
sends aborted = []
sends undefined = []

-- The messages for the standard input that arrive, up to the end of the thread.
unfoldable pub stdin_messages : List Arrival → List (List ℕ)
stdin_messages [] = []
stdin_messages (select_interrupted ∷ more) = stdin_messages more
stdin_messages (select_failed ∷ more) = []
stdin_messages (end_request ∷ more) = []
stdin_messages (receive_failed ∷ more) = stdin_messages more
stdin_messages (arrived res ws rpc_id m ∷ more) =
    let rest = stdin_messages more in
    if m.header.command == cmd_recv_from_stdin then m.raw ∷ rest else rest

unfoldable join : List (List ℕ) → List ℕ
join [] = []
join (xs ∷ xss) = xs ++ join xss

join_if :
    (b : Bool) (xs : List ℕ) (xss : List (List ℕ))
    → join (if b then xs ∷ xss else xss) ≡ (if b then xs ++ join xss else join xss)
unfolding join
join_if true xs xss = refl
join_if false xs xss = refl

sent_to_stdin-join :
    (arrivals : List Arrival) → sent_to_stdin arrivals ≡ join (stdin_messages arrivals)
unfolding sent_to_stdin stdin_messages join
sent_to_stdin-join [] = refl
sent_to_stdin-join (select_interrupted ∷ more) = sent_to_stdin-join more
sent_to_stdin-join (select_failed ∷ more) = refl
sent_to_stdin-join (end_request ∷ more) = refl
sent_to_stdin-join (receive_failed ∷ more) = sent_to_stdin-join more
sent_to_stdin-join (arrived res ws rpc_id m ∷ more) =
    let other = m.header.command == cmd_recv_from_stdin in
    rw (sent_to_stdin-join more) (sym (join_if other m.raw (stdin_messages more)))

-- A message to nodes of which n is one, and to nodes of which it is none.
stdin_to-none :
    (n port : ℕ) (h : Header) (raw : List ℕ) (ks : List ℕ) (es : List Effect)
    → copies n ks ≡ 0
    → stdin_to n (map (λ (k : ℕ). send k port h raw) ks ++ es) ≡ stdin_to n es
unfolding stdin_to copies
stdin_to-none n port h raw [] es nowhere = refl
stdin_to-none n port h raw (k ∷ ks) es nowhere = elim (Bool-cases (n == k)) [
  | inl here ↦ let some_ : 1 + copies n ks ≡ 0 = rw here at nowhere in absurd (omega (arith, some_))
  | inr there ↦
      let others : 0 + copies n ks ≡ 0 = rw there at nowhere in
      rw there (stdin_to-none n port h raw ks es (omega (arith, others)))
]

stdin_to-once :
    (n port : ℕ) (h : Header) (raw : List ℕ) (ks : List ℕ) (es : List Effect)
    → (h.command == cmd_recv_from_stdin) ≡ true
    → copies n ks ≡ 1
    → stdin_to n (map (λ (k : ℕ). send k port h raw) ks ++ es) ≡ raw ∷ stdin_to n es
unfolding stdin_to copies
stdin_to-once n port h raw [] es is once = absurd (omega (arith, once))
stdin_to-once n port h raw (k ∷ ks) es is once = elim (Bool-cases (n == k)) [
  | inl here ↦
      let others : 1 + copies n ks ≡ 1 = rw here at once in
      rw (here, is, stdin_to-none n port h raw ks es (omega (arith, others))) refl
  | inr there ↦
      let others : 0 + copies n ks ≡ 1 = rw there at once in
      rw there (stdin_to-once n port h raw ks es is (omega (arith, others)))
]

send_to_slaves-done :
    (link : Link) (h : Header) (raw : List ℕ)
    → link.nodes < 2 ^ 64
    → send_to_slaves link h raw
      ≡ done (map (λ (n : ℕ). send n link.slave_port h raw) (targets 64 0 link.nodes))
unfolding send_to_slaves targets
send_to_slaves-done link h raw fits =
    rw (send_to_slaves, send_raw-targets link.accepts link.nodes fits) refl

-- Whatever happens to the sender, it gets through its rounds.
pub master_sender-returns :
    (link : Link) (rounds : List StdinRound)
    → link.nodes < 2 ^ 64
    → (r : List Effect × Bool) × (master_sender link rounds ≡ done r)
unfolding master_sender
master_sender-returns link [] fits = (([], false), refl)
master_sender-returns link (woken ∷ more) fits = master_sender-returns link more fits
master_sender-returns link (select_error ∷ more) fits = (([], true), refl)
master_sender-returns link (end_asked ∷ more) fits = (([], true), refl)
master_sender-returns link (read_again ∷ more) fits = master_sender-returns link more fits
master_sender-returns link (read_error ∷ more) fits = (([], true), refl)
master_sender-returns link (got [] ∷ more) fits = master_sender-returns link more fits
master_sender-returns link (got (x ∷ xs) ∷ more) fits =
    let (r, ends) = master_sender-returns link more fits in
    let h = stdin_header link in
    let to_all = map (λ (k : ℕ). send k link.slave_port h (x ∷ xs)) (targets 64 0 link.nodes) in
    ((to_all ++ r.0, r.1), rw (send_to_slaves-done link h (x ∷ xs) fits, ends) refl)

-- What is sent to a node.
abbrev Passes : ℕ → Link → List StdinRound → Type 0
Passes n link rounds =
    (r : List Effect × Bool) × (master_sender link rounds ≡ done r)
    × (join (stdin_to n r.0) ≡ read_bytes rounds)

module _ (n : ℕ) (link : Link) (fits : link.nodes < 2 ^ 64) (in_ : test_bit link.nodes n ≡ 1) where
  master_sender-Passes : (rounds : List StdinRound) → Passes n link rounds
  unfolding master_sender read_bytes stdin_to join
  master_sender-Passes [] = (([], false), refl, refl)
  master_sender-Passes (woken ∷ more) = master_sender-Passes more
  master_sender-Passes (select_error ∷ more) = (([], true), refl, refl)
  master_sender-Passes (end_asked ∷ more) = (([], true), refl, refl)
  master_sender-Passes (read_again ∷ more) = master_sender-Passes more
  master_sender-Passes (read_error ∷ more) = (([], true), refl, refl)
  master_sender-Passes (got [] ∷ more) = master_sender-Passes more
  master_sender-Passes (got (x ∷ xs) ∷ more) =
      let h = stdin_header link in
      let (r, ends, passed) = master_sender-Passes more in
      let ks = targets 64 0 link.nodes in
      let once : copies n ks ≡ 1 = copies_at 64 0 link.nodes n n fits (omega arith) ∙ in_ in
      let to_all = map (λ (k : ℕ). send k link.slave_port h (x ∷ xs)) ks in
      let given = stdin_to-once n link.slave_port h (x ∷ xs) ks r.0 refl once in
      (
        (to_all ++ r.0, r.1),
        rw (send_to_slaves-done link h (x ∷ xs) fits, ends) refl,
        rw (given, passed) refl,
      )

-- With the redirect service, a mask of 64 bits and the bit of a slave set in it: whatever fails or is
-- interrupted on the way, the sender gets through its rounds. If the messages for the standard
-- input that arrive at the slave, up to the end of its thread, are those that are sent to it, in
-- order, among any other messages, and the writes there take the bytes of each, then the slave's
-- child reads on its standard input exactly the bytes that the master has read on its own, in order.
pub master_sender-recv_thread :
    (n : ℕ) (link : Link) (rounds : List StdinRound) (info : Info) (arrivals : List Arrival)
    (sigterm : Bool)
    → link.nodes < 2 ^ 64
    → test_bit link.nodes n ≡ 1
    → has_service info.services redirect_service ≡ true
    → AllTake arrivals
    → stdin_messages arrivals ≡ stdin_to n (sends (master_sender link rounds))
    → ((r : List Effect × Bool) × (master_sender link rounds ≡ done r))
      × (fed (recv_thread info arrivals sigterm).1 ≡ read_bytes rounds)
master_sender-recv_thread n link rounds info arrivals sigterm fits in_ on takes heard =
    let (r, ends, passed) = master_sender-Passes n link fits in_ rounds in
    let arrive : stdin_messages arrivals ≡ stdin_to n r.0 = rw ends at heard in
    let read = recv_thread-stdin info arrivals sigterm on takes in
    ((r, ends), read ∙ sent_to_stdin-join arrivals ∙ ap join arrive ∙ passed)
