-- ===== src/Init/Session/Handler.antt =====
-- `axiom_session`, `release` and `used` as the callers see them: what they leave of the mask, and
-- when the C code stops being defined.
use axiom_evi_apps.Prelude.{
  ℕ, ◌^◌, ◌<◌, ◌≡◌, refl, ◌≢◌, arith, true, [], ◌∷◌, done, aborted, undefined, ◌==◌, ltb,
  if◌then◌else◌, ◌↔◌, ◌&&◌,
}
use native.Mathlib.Nat.{one-le-pow}
use axiom_evi_apps.Bits.{test_bit, test_bit-le, bit_and-pow}
use axiom_evi_apps.Bits.Words.{set_bit, test_bit-set_bit, word_ext, bit_or-lt, pow-lt-pow}
use axiom_evi_apps.Init.Session.{
  next, release, used, release_if_used, allocate, axiom_session, Codes, Request, Reply,
}
use axiom_evi_apps.Init.Session.Laws.{next-Allocates}

pub set_bit-lt : (sessions ses : ℕ) → sessions < 2 ^ 32 → ses < 32 → set_bit sessions ses < 2 ^ 32
set_bit-lt sessions ses h lt = bit_or-lt 32 sessions (2 ^ ses) h (pow-lt-pow ses 32 lt)

-- A session number that was just allocated is given back by `release`, and the mask is as before.
pub release-next :
    (empty sessions : ℕ)
    → sessions ≢ 0
    → sessions < 2 ^ 32
    → release (next empty sessions).0 (next empty sessions).1 ≡ done sessions
unfolding release
release-next empty sessions ne lt =
    let a = next-Allocates empty sessions ne lt in
    let (ses, rest) = next empty sessions in
    let in_range : ltb ses 32 ≡ true = ground (arith, a.in_range) in
    let restored : set_bit rest ses ≡ sessions =
      word_ext 32 (set_bit rest ses) sessions (set_bit-lt rest ses a.fits a.in_range) lt
        (λ k hk. ground (arith, test_bit-set_bit rest ses k, a.others k hk, a.was_free)) in
    rw (in_range, restored) refl

-- Outside a session number of 32, `used` says whether the session's bit is clear.
pub used_lem :
    (ses sessions : ℕ)
    → ses ≢ 32
    → used ses sessions ≡ done (ltb ses 32 && (test_bit sessions ses == 0))
unfolding used
used_lem ses sessions ne =
    ground (arith, bit_and-pow sessions ses, test_bit-le sessions ses, one-le-pow ses 2)

-- A session that was just allocated is in use, and every other is as it was.
pub used-next :
    (empty sessions ses : ℕ)
    → sessions ≢ 0
    → sessions < 2 ^ 32
    → ses < 32
    → used ses (next empty sessions).1
      ≡ (if ses == (next empty sessions).0 then done true else used ses sessions)
used-next empty sessions ses ne lt small =
    let a = next-Allocates empty sessions ne lt in
    ground (
      arith,
      used_lem ses (next empty sessions).1,
      used_lem ses sessions,
      a.now_used,
      a.others ses small,
    )

-- A request to give back a session: a session in use becomes free and no other bit changes, one
-- that is free or above 32 changes nothing, and the handler's `assert` is never reached.
pub release_if_used_lem :
    (ses sessions : ℕ)
    → ses ≢ 32
    → release_if_used ses sessions
      ≡ done (if ltb ses 32 && (test_bit sessions ses == 0) then set_bit sessions ses else sessions)
unfolding release_if_used release
release_if_used_lem ses sessions ne = ground (arith, used_lem ses sessions)

release_if_used_at_width : (ses sessions : ℕ) → ses ≡ 32 → release_if_used ses sessions ≡ undefined
unfolding release_if_used used
release_if_used_at_width ses sessions e = ground arith

-- No request makes the handler abort, and its behaviour is undefined exactly for a request to
-- give back session 32.
pub axiom_session-undefined_iff :
    (c : Codes) (src : ℕ) (payload : Request) (sessions : ℕ)
    → (axiom_session c src payload sessions ≢ aborted)
      × ((axiom_session c src payload sessions ≡ undefined) ↔ (
          (payload.command ≡ c.session_req)
          × (payload.session_id ≢ c.session_empty)
          × (payload.session_id ≡ 32)))
unfolding axiom_session
axiom_session-undefined_iff c src payload sessions = ground (
  arith,
  release_if_used_lem payload.session_id sessions,
  release_if_used_at_width payload.session_id sessions,
)

-- A request to allocate always succeeds: the one reply, to the asking node and port, carries the
-- number that `next` takes, and the mask is what `next` leaves.
pub axiom_session-allocate :
    (c : Codes) (src : ℕ) (payload : Request) (sessions : ℕ)
    → payload.command ≡ c.session_req
    → payload.session_id ≡ c.session_empty
    → (reply : Reply) × (axiom_session c src payload sessions
        ≡ done ((next c.session_empty sessions).1, reply ∷ []))
      × (reply.node ≡ src)
      × (reply.port ≡ payload.reply_port)
      × (reply.command ≡ c.session_reply)
      × (reply.session_id ≡ (next c.session_empty sessions).0)
unfolding axiom_session allocate
axiom_session-allocate c src payload sessions req empty =
    ((allocate c src payload.reply_port sessions).1, ground arith, refl, refl, refl, refl)

pub release_in_range :
    (ses sessions : ℕ) → ses < 32 → release ses sessions ≡ done (set_bit sessions ses)
unfolding release
release_in_range ses sessions lt = ground arith

-- Giving back a session leaves every other as it was.
pub used-set_bit :
    (ses other sessions : ℕ)
    → other ≢ ses
    → other ≢ 32
    → used other (set_bit sessions ses) ≡ used other sessions
used-set_bit ses other sessions ne in_word = ground (
  arith,
  used_lem other (set_bit sessions ses) in_word,
  used_lem other sessions in_word,
  test_bit-set_bit sessions ses other,
)

pub used-busy : (ses sessions : ℕ) → ses ≢ 32 → used ses sessions ≡ done true → ses < 32
used-busy ses sessions ne busy = ground (arith, used_lem ses sessions ne, busy)
