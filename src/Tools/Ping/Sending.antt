-- ===== src/Tools/Ping/Sending.antt =====
-- The sender over a network that accepts what is sent.
use native.Mathlib.Nat.{mod-eq_of_lt}
use axiom_evi_apps.Prelude.{
  ℕ, suc, ◌+◌, ◌-◌, ◌%◌, ◌^◌, ◌<◌, ◌≡◌, refl, arith, ap, true, false, List, [], ◌∷◌, map, some,
  length, ◌==◌,
}
use axiom_evi_apps.Init.Replies.{ping, Ping}
use axiom_evi_apps.Tools.Ping.{Round, accepted, sender_body}

-- A round without the signal, whose message is accepted.
abbrev pub calm : ℕ → Round
calm start_ns = record { interrupted = false; clock = some start_ns; result = accepted }

-- The messages that are sent at these times, numbered behind a number.
unfoldable pub requests : ℕ → ℕ → List ℕ → List Ping
requests unique_id seq [] = []
requests unique_id seq (t ∷ ts) =
    record { command = ping; unique_id = unique_id; seq_num = seq + 1; timestamp = t }
    ∷ requests unique_id (seq + 1) ts

pub length-requests :
    (unique_id seq : ℕ) (ts : List ℕ) → length (requests unique_id seq ts) ≡ length ts
unfolding requests
length-requests unique_id seq [] = refl
length-requests unique_id seq (t ∷ ts) = ap suc (length-requests unique_id (seq + 1) ts)

-- The sender sends as many messages as its count.
pub sender_body-calm :
    (width unique_id seq : ℕ) (ts : List ℕ)
    → seq + length ts < 2 ^ width
    → sender_body (map calm ts) width unique_id true (length ts) seq
      ≡ record { messages = requests unique_id seq ts; sent_packets = length ts; ended = true }
unfolding sender_body requests
sender_body-calm width unique_id seq [] small = refl
sender_body-calm width unique_id seq (t ∷ ts) small =
    let later = sender_body-calm width unique_id (seq + 1) ts (omega arith) in
    let exact : (seq + 1) % 2 ^ width ≡ seq + 1 = mod-eq_of_lt (omega arith) in
    let more : (length (t ∷ ts) == 0) ≡ false = ground arith in
    let less : length (t ∷ ts) - 1 ≡ length ts = omega arith in
    let one : length ts + 1 ≡ suc (length ts) = omega arith in
    rw (more, less, exact, later, one) refl
