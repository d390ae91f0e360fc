-- ===== src/Run/Receiver/Ends.antt =====
-- The receiver leaves its loop at the exit message of the last slave, and only then.
use axiom_evi_apps.Prelude.{
  ℕ, ◌+◌, ◌^◌, ◌≤◌, ◌<◌, ◌≡◌, refl, arith, Bool, true, List, [], ◌∷◌, Outcome, done, aborted,
  undefined, ◌>>=◌, Bool-cases, Outcome-cases, inl, inr, ◌↔◌,
}
use axiom_evi_apps.Run.Messages.{Message, Effect}
use axiom_evi_apps.Run.Receiver.{Env, Master, Kind, kind, dispatch, leaves, receive_all, decrement}

-- The exit messages among some messages.
pub exits : Env → List Message → ℕ
exits env [] = 0
exits env (m ∷ ms) = (elim (kind env m.header.command) [ Kind.exit ↦ 1 | _ ↦ 0 ]) + exits env ms

-- Inversion of a bind that ended well.
>>=-eq-done {ℓ κ} :
    {A : Type ℓ} {B : Type κ} (m : Outcome A) (f : A → Outcome B) {b : B}
    → (m >>= f) ≡ done b
    → (a : A) × (m ≡ done a) × (f a ≡ done b)
>>=-eq-done (done a) f h = (a, refl, h)
>>=-eq-done aborted f h = cc
>>=-eq-done undefined f h = cc

abbrev counted : Kind → ℕ → ℕ
counted Kind.exit n = decrement n
counted _ n = n

-- What one message does to the counter of slaves that have not ended.
dispatch-exit_counter :
    (env : Env) (k : Kind) (m : Message) (s : Master) (r : Master × List Effect)
    → dispatch env k m s ≡ done r
    → r.0.exit_counter ≡ counted k s.exit_counter
unfolding dispatch
dispatch-exit_counter env Kind.stderr m s r e = ground arith
dispatch-exit_counter env Kind.stdout m s r e = ground arith
dispatch-exit_counter env Kind.exit m s r e = ground arith
dispatch-exit_counter env Kind.barrier m s r e = ground arith
dispatch-exit_counter env Kind.rpc m s r e = ground arith
dispatch-exit_counter env Kind.unknown m s r e = ground arith

-- If no message goes wrong, the receiver leaves its loop exactly if the messages hold as many exit
-- messages as there are slaves that have not ended.
pub receive_all-leaves_iff :
    (env : Env) (ms : List Message) (s : Master) (r : Master × List Effect × Bool)
    → receive_all env ms s ≡ done r
    → 0 < s.exit_counter
    → s.exit_counter < 2 ^ 32
    → (r.2 ≡ true) ↔ (s.exit_counter ≤ exits env ms)
unfolding receive_all exits
receive_all-leaves_iff env [] s r e pos small = ground arith
receive_all-leaves_iff env (m ∷ ms) s r e pos small =
    elim (Outcome-cases (dispatch env (kind env m.header.command) m s)) [
      | inl (q, ends) ↦
          let e' = rw (ends, receive_all) at e in
          let count = dispatch-exit_counter env (kind env m.header.command) m s q ends in
          elim (Bool-cases (leaves env (kind env m.header.command) q.0)) [
            | inl left ↦ ground (arith, e', count)
            | inr stays ↦ elim (Outcome-cases (receive_all env ms q.0)) [
              | inl (t, goes_on) ↦
                  ground (arith, e', count, receive_all-leaves_iff env ms q.0 t goes_on)
              | inr failed ↦ ground (arith, e')
            ]
          ]
      | inr failed ↦ ground arith
    ]
