-- ===== src/Tools/Ping/Hearing.antt =====
-- The receiver, to which a node answers while other messages come in between.
use axiom_evi_apps.Prelude.{
  ℕ, ◌-◌, ◌^◌, ◌<◌, ◌≤◌, ◌≡◌, refl, arith, true, false, List, [], ◌∷◌, All, some, length, ◌==◌,
  Bool-cases, inl, inr,
}
use axiom_evi_apps.Init.Replies.{Ping, pong, is_ping, axiom_pong}
use axiom_evi_apps.Tools.Ping.{
  message, Reception, Statistics, add_time, diff_ns, is_own, leaves, receive_pings, heard_none,
}

-- A message that is received at a time, without the signal.
abbrev pub hears : ℕ → Ping → ℕ → Reception
hears src m now = record {
  received = message src m;
  clock = some now;
  signal_after = false;
  signal_end = false;
}

-- The answers of the daemon of `dst` to messages of `here`, in order, and other messages between
-- them. The indices are the messages, the times that they take, and the receptions.
pub data Answered (unique_id here dst : ℕ) : List Ping → List ℕ → List Reception → Type 0 where
  nothing_more : {rs : List Reception} → Answered unique_id here dst [] [] rs
  foreign :
      {ps : List Ping} {ts : List ℕ} {rs : List Reception} {p m : Ping} {src now : ℕ}
      → is_own unique_id m ≡ false
      → Answered unique_id here dst (p ∷ ps) ts rs
      → Answered unique_id here dst (p ∷ ps) ts (hears src m now ∷ rs)
  answer :
      {ps : List Ping} {ts : List ℕ} {rs : List Reception} {p m : Ping} {now : ℕ}
      → axiom_pong here p ≡ some (here, m)
      → p.timestamp ≤ now
      → now < 2 ^ 64
      → Answered unique_id here dst ps ts rs
      → Answered unique_id here dst (p ∷ ps) ((now - p.timestamp) ∷ ts) (hears dst m now ∷ rs)

pong_of :
    (here : ℕ) (p m : Ping) → axiom_pong here p ≡ some (here, m) → m ≡ record p { command = pong }
unfolding axiom_pong
pong_of here p m made = elim (Bool-cases (is_ping p.command)) [
  | inl asked ↦ let same = rw asked at made in cc
  | inr other ↦ let never = rw other at made in cc
]

-- Without a wrap the difference is that of the times.
pub diff_ns-exact :
    (start_ns end_ns : ℕ)
    → start_ns ≤ end_ns
    → end_ns < 2 ^ 64
    → diff_ns start_ns end_ns ≡ end_ns - start_ns
unfolding diff_ns
diff_ns-exact start_ns end_ns before small = omega arith

-- The lines of the answers.
unfoldable pub printed : ℕ → List Ping → List ℕ → List (ℕ × (ℕ × ℕ))
printed dst [] ts = []
printed dst (p ∷ ps) [] = []
printed dst (p ∷ ps) (t ∷ ts) = (dst, (p.seq_num, t)) ∷ printed dst ps ts

-- The statistics after times.
unfoldable pub counted_all : List ℕ → Statistics → Statistics
counted_all [] s = s
counted_all (t ∷ ts) s = counted_all ts (add_time t s)

receive_pings-over :
    (rs : List Reception) (unique_id : ℕ) (s : Statistics)
    → receive_pings rs unique_id true 0 s ≡ heard_none (leaves s)
unfolding receive_pings
receive_pings-over [] unique_id s = refl
receive_pings-over (r ∷ rs) unique_id s = refl

-- The receiver takes the answers and passes over the other messages.
pub receive_pings-Answered :
    {unique_id here dst : ℕ} {ps : List Ping} {ts : List ℕ} {rs : List Reception} (s : Statistics)
    (answers : Answered unique_id here dst ps ts rs)
    → All (λ p. p.unique_id ≡ unique_id) ps
    → receive_pings rs unique_id true (length ps) s
      ≡ record { lines = printed dst ps ts; end = leaves (counted_all ts s) }
unfolding receive_pings printed counted_all
receive_pings-Answered {ts} s (nothing_more {rs}) own = receive_pings-over rs _ s
receive_pings-Answered {unique_id} s (foreign {ps} {p} {m} other answers) own =
    let more : (length (p ∷ ps) == 0) ≡ false = ground arith in
    rw (more, other) (receive_pings-Answered s answers own)
receive_pings-Answered {unique_id} {here} {dst} s
      (answer {ps} {p} {m} {now} made before small answers) (is, own) =
    let more : (length (p ∷ ps) == 0) ≡ false = ground arith in
    let less : length (p ∷ ps) - 1 ≡ length ps = omega arith in
    let self : (p.unique_id == unique_id) ≡ true = ground (arith, is) in
    let exact = diff_ns-exact p.timestamp now before small in
    let later = receive_pings-Answered (add_time (now - p.timestamp) s) answers own in
    rw (more, pong_of here p m made, self, less, exact, later) refl
