-- ===== src/Init/Session.antt =====
-- axiom-init/axiom-session/axiom_session.c: the daemon's session numbers, one bit each in an
-- `unsigned int` (1 free, 0 used). A number is freed behind an `assert`, and a shift by the
-- width of the word is undefined. `AXIOM_SESSION_EMPTY` and the command codes come from the NIC
-- headers and are parameters. The result of `axiom_send_raw` is only printed, so a handler
-- answers with the messages that it sends; verbose printing is left out.
pub mod Laws
pub mod Handler
pub mod Many
mod Tests
use axiom_evi_apps.Prelude.{
  ℕ, zero, suc, ◌+◌, ◌-◌, ◌/◌, ◌%◌, ◌^◌, bit_and, Bool, true, false, List, [], ◌∷◌, Outcome, done,
  aborted, undefined, ◌>>=◌, ltb, ◌==◌, if◌then◌else◌,
}
use axiom_evi_apps.Bits.Words.{set_bit, clear_bit}

-- `__builtin_ctz` of a word of w bits that is not 0: the number of trailing zeros.
unfoldable pub ctz : ℕ → ℕ → ℕ
ctz zero x = 0
ctz (suc w) x = let rest = ctz w (x / 2) in if x % 2 == 1 then 0 else rest + 1

-- sizeof (unsigned int) * 8
abbrev pub word_bits : ℕ
word_bits = 32

-- `static unsigned int sessions = UINT_MAX`
abbrev pub initial_sessions : ℕ
initial_sessions = 2 ^ 32 - 1

-- The session number handed out, and the mask left.
pub next : ℕ → ℕ → ℕ × ℕ
next empty sessions =
    if sessions == 0
    then (empty, sessions)
    else (let ses = ctz word_bits sessions in (ses, clear_bit word_bits sessions ses))

pub release : ℕ → ℕ → Outcome ℕ
release ses sessions = if ltb ses word_bits then done (set_bit sessions ses) else aborted

-- The test is `ses > 32`, so a session of 32 reaches the shift.
pub used : ℕ → ℕ → Outcome Bool
used ses sessions =
    if ltb word_bits ses
    then done false
    else if ltb ses word_bits
    then done (bit_and sessions (2 ^ ses) == 0)
    else undefined

-- The constants of the NIC headers that the handler compares with.
pub record Codes : Type 0 where
  pub session_req : ℕ
  pub session_reply : ℕ
  pub session_empty : ℕ

pub record Request : Type 0 where
  pub command : ℕ
  pub reply_port : ℕ
  pub session_id : ℕ

pub record Reply : Type 0 where
  pub node : ℕ
  pub port : ℕ
  pub command : ℕ
  pub session_id : ℕ

-- The release branch of the handler.
pub release_if_used : ℕ → ℕ → Outcome ℕ
unfolding used release
release_if_used ses sessions = do
  busy ← used ses sessions
  if busy then release ses sessions else done sessions

-- The allocation branch: the reply carries what `next` returned.
pub allocate : Codes → ℕ → ℕ → ℕ → ℕ × Reply
unfolding next
allocate c src port sessions =
    let (ses, sessions') = next c.session_empty sessions in
    (sessions', record { node = src; port = port; command = c.session_reply; session_id = ses })

pub axiom_session : Codes → ℕ → Request → ℕ → Outcome (ℕ × List Reply)
unfolding release_if_used allocate
axiom_session c src payload sessions =
    if payload.command == c.session_req
    then (if payload.session_id == c.session_empty
        then (let (sessions', reply) = allocate c src payload.reply_port sessions in
            done (sessions', reply ∷ []))
        else (do sessions' ← release_if_used payload.session_id sessions; done (sessions', [])))
    else done (sessions, [])
