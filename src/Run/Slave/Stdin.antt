-- ===== src/Run/Slave/Stdin.antt =====
-- The child's standard input: every byte that the master redirects reaches it, in order.
use axiom_evi_apps.Prelude.{
  ℕ, zero, suc, ◌-◌, ◌≡◌, refl, arith, Bool, true, false, List, [], ◌∷◌, ◌++◌, drop, length,
  length-drop, take-append-drop, ap, sym, ◌==◌, ◌∙◌, ◌||◌, if◌then◌else◌, Bool-cases, inl, inr,
}
use axiom_evi_apps.Run.Messages.{Message, cmd_recv_from_stdin, has_service, redirect_service}
use axiom_evi_apps.Run.Slave.Receive.{
  Writing, interrupted, failed, wrote, write_stdin, Action, feed, signal, barrier_datagram,
  rpc_datagram, Info, on_kill, on_message, Arrival, select_interrupted, select_failed, end_request,
  receive_failed, arrived, recv_thread,
}
use axiom_evi_apps.Run.Slave.Forward.{append_assoc, append_nil}

-- The bytes that reach the child's standard input, in order.
unfoldable pub fed : List Action → List ℕ
fed [] = []
fed (feed xs ∷ more) = xs ++ fed more
fed (signal sig ∷ more) = fed more
fed (barrier_datagram id size ∷ more) = fed more
fed (rpc_datagram id size ∷ more) = fed more

-- The bytes of the messages for the standard input, up to the end of the thread.
unfoldable pub sent_to_stdin : List Arrival → List ℕ
sent_to_stdin [] = []
sent_to_stdin (select_interrupted ∷ more) = sent_to_stdin more
sent_to_stdin (select_failed ∷ more) = []
sent_to_stdin (end_request ∷ more) = []
sent_to_stdin (receive_failed ∷ more) = sent_to_stdin more
sent_to_stdin (arrived res ws rpc_id m ∷ more) =
    if m.header.command == cmd_recv_from_stdin
    then m.raw ++ sent_to_stdin more
    else sent_to_stdin more

-- The writes may be interrupted or short, but none fails and they take n bytes in all.
unfoldable pub Takes : List Writing → ℕ → Type 0
Takes ws zero = Unit
Takes [] (suc n) = ⊥
Takes (interrupted ∷ ws) (suc n) = Takes ws (suc n)
Takes (failed ∷ ws) (suc n) = ⊥
Takes (wrote sz ∷ ws) (suc n) = Takes ws (suc n - sz)

unfoldable pub AllTake : List Arrival → Type 0
AllTake [] = Unit
AllTake (arrived res ws rpc_id m ∷ more) = Takes ws (length m.raw) × AllTake more
AllTake (_ ∷ more) = AllTake more

write_stdin-all :
    (ws : List Writing) (xs : List ℕ) → Takes ws (length xs) → write_stdin ws xs ≡ (xs, [])
unfolding write_stdin Takes
write_stdin-all ws [] ok = refl
write_stdin-all [] (x ∷ xs) ok = absurd ok
write_stdin-all (interrupted ∷ ws) (x ∷ xs) ok = write_stdin-all ws (x ∷ xs) ok
write_stdin-all (failed ∷ ws) (x ∷ xs) ok = absurd ok
write_stdin-all (wrote sz ∷ ws) (x ∷ xs) ok =
    let rest : write_stdin ws (drop sz (x ∷ xs)) ≡ (drop sz (x ∷ xs), []) =
      write_stdin-all ws (drop sz (x ∷ xs)) (rw (length-drop sz (x ∷ xs)) ok) in
    rw rest (ap (λ (ys : List ℕ). (ys, [])) (take-append-drop sz (x ∷ xs)))

fed-append : (xs ys : List Action) → fed (xs ++ ys) ≡ fed xs ++ fed ys
unfolding fed
fed-append [] ys = refl
fed-append (feed bytes ∷ xs) ys =
    ap (λ (zs : List ℕ). bytes ++ zs) (fed-append xs ys)
    ∙ sym (append_assoc bytes (fed xs) (fed ys))
fed-append (signal sig ∷ xs) ys = fed-append xs ys
fed-append (barrier_datagram id size ∷ xs) ys = fed-append xs ys
fed-append (rpc_datagram id size ∷ xs) ys = fed-append xs ys

fed-on_kill : (info : Info) → fed (on_kill info) ≡ []
unfolding fed on_kill
fed-on_kill info = ground arith

fed-on_message :
    (info : Info) (res : ℕ) (ws : List Writing) (rpc_id : ℕ) (m : Message)
    → has_service info.services redirect_service ≡ true
    → Takes ws (length m.raw)
    → fed (on_message info res ws rpc_id m).1
      ≡ (if m.header.command == cmd_recv_from_stdin then m.raw else [])
unfolding on_message fed
fed-on_message info res ws rpc_id m on ok =
    elim (Bool-cases (m.header.command == cmd_recv_from_stdin)) [
      | inl e ↦ rw (e, on, write_stdin-all ws m.raw ok) (append_nil m.raw)
      | inr e ↦ rw e (ground (arith, fed-on_kill info))
    ]

if_append :
    (b : Bool) (xs ys : List ℕ) → (if b then xs else []) ++ ys ≡ (if b then xs ++ ys else ys)
if_append true xs ys = refl
if_append false xs ys = refl

-- With the redirect service, and writes that take the bytes of each message, the child reads on its
-- standard input the bytes of all the messages for it, in the order in which they arrive until the
-- thread ends, and nothing of any other message.
pub recv_thread-stdin :
    (info : Info) (arrivals : List Arrival) (sigterm : Bool)
    → has_service info.services redirect_service ≡ true
    → AllTake arrivals
    → fed (recv_thread info arrivals sigterm).1 ≡ sent_to_stdin arrivals
unfolding recv_thread sent_to_stdin AllTake
recv_thread-stdin info [] sigterm on ok = unfold fed in refl
recv_thread-stdin info (select_interrupted ∷ more) sigterm on ok =
    recv_thread-stdin info more sigterm on ok
recv_thread-stdin info (select_failed ∷ more) sigterm on ok = unfold fed in refl
recv_thread-stdin info (end_request ∷ more) sigterm on ok = unfold fed in refl
recv_thread-stdin info (receive_failed ∷ more) sigterm on ok =
    recv_thread-stdin info more sigterm on ok
recv_thread-stdin info (arrived res ws rpc_id m ∷ more) sigterm on ok =
    let step = on_message info res ws rpc_id m in
    fed-append step.1 (recv_thread info more (sigterm || step.0)).1
    ∙ rw
        (
          fed-on_message info res ws rpc_id m on ok.0,
          recv_thread-stdin info more (sigterm || step.0) on ok.1,
        )
        (if_append (m.header.command == cmd_recv_from_stdin) m.raw (sent_to_stdin more))
