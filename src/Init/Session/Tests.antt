-- ===== src/Init/Session/Tests.antt =====
-- Runs of axiom-init/axiom-session.
use axiom_evi_apps.Prelude.{
  ℕ, ◌≡◌, refl, ◌≢◌, arith, [], ◌∷◌, All, Distinct, done, aborted, undefined, ◌↔◌,
}
use axiom_evi_apps.Bits.Words.{popcount}
use axiom_evi_apps.Init.Session.{
  next, release, used, release_if_used, axiom_session, initial_sessions, ctz, Codes, Request,
}
use axiom_evi_apps.Init.Session.Handler.{axiom_session-undefined_iff}
use axiom_evi_apps.Init.Session.Many.{hand_outs, hand_outs-Distinct, IsFree}

abbrev empty : ℕ
empty = 255

abbrev codes : Codes
codes = record { session_req = 1; session_reply = 2; session_empty = empty }

first_three : hand_outs empty 3 initial_sessions ≡ 0 ∷ 1 ∷ 2 ∷ []
unfolding hand_outs next ctz
first_three = refl

runs_out : hand_outs empty 3 0b101000 ≡ 3 ∷ 5 ∷ empty ∷ []
unfolding hand_outs next ctz
runs_out = refl

abbrev give_back : ℕ → Request
give_back ses = record { command = 1; reply_port = 3; session_id = ses }

given_back : axiom_session codes 7 (give_back 2) 0b1000 ≡ done (0b1100, [])
unfolding axiom_session release_if_used release used
given_back = refl

word_width : axiom_session codes 7 (give_back 32) 0b1000 ≡ undefined
unfolding axiom_session release_if_used release used
word_width = refl

hand_outs-Distinct_example :
    All (IsFree 0b101100) (hand_outs empty 3 0b101100) × Distinct (hand_outs empty 3 0b101100)
hand_outs-Distinct_example =
    hand_outs-Distinct empty 3 0b101100 (omega arith) (unfold popcount in omega arith)

axiom_session-undefined_iff_example :
    (axiom_session codes 7 (give_back 32) 0b1000 ≢ aborted)
    × ((axiom_session codes 7 (give_back 32) 0b1000 ≡ undefined) ↔ (
        ((give_back 32).command ≡ codes.session_req)
        × ((give_back 32).session_id ≢ codes.session_empty)
        × ((give_back 32).session_id ≡ 32)))
axiom_session-undefined_iff_example = axiom_session-undefined_iff codes 7 (give_back 32) 0b1000
