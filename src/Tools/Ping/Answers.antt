-- ===== src/Tools/Ping/Answers.antt =====
-- The tool over a network in which the daemon of the destination answers each message.
use axiom_evi_apps.Prelude.{
  ℕ, suc, ◌+◌, ◌%◌, ◌^◌, ◌<◌, ◌≡◌, refl, arith, ap, ◌∙◌, true, false, List, [], ◌∷◌, All, map, none,
  some, length, ltb, ◌==◌,
}
use axiom_evi_apps.Init.Replies.{Ping}
use axiom_evi_apps.Tools.Ping.{PingOption, Reception, ping_options, pings, no_statistics}
use axiom_evi_apps.Tools.Ping.Report.{
  Device, reported, report, run_threads, run_ping, join_sender, ping_main,
}
use axiom_evi_apps.Tools.Ping.Sending.{calm, requests, length-requests, sender_body-calm}
use axiom_evi_apps.Tools.Ping.Hearing.{
  Answered, nothing_more, answer, foreign, printed, receive_pings-Answered,
}
use axiom_evi_apps.Tools.Ping.Times.{
  total, least_of, greatest_of, Answered-small, counted_all-first,
}

requests-own :
    (unique_id seq : ℕ) (starts : List ℕ)
    → All (λ p. p.unique_id ≡ unique_id) (requests unique_id seq starts)
unfolding requests
requests-own unique_id seq [] = tt
requests-own unique_id seq (t ∷ ts) = (refl, requests-own unique_id (seq + 1) ts)

Answered-length :
    {unique_id here dst : ℕ} {ps : List Ping} {ts : List ℕ} {rs : List Reception}
    → Answered unique_id here dst ps ts rs
    → length ts ≡ length ps
Answered-length nothing_more = refl
Answered-length (foreign other answers) = Answered-length answers
Answered-length (answer made before small answers) = ap suc (Answered-length answers)

-- `-c` with the number of the times, to a node that is allowed, where no call fails, no signal comes
-- and every message is accepted, and a count that fits an int and a sequence number. If the
-- destination's daemon answers each message, in order, whatever other messages come in between,
-- the tool ends: it prints a line for each answer, with the sequence number and the time from the
-- message to the answer, as many packets sent as received, and the least, the sum (modulo 2^64)
-- and the greatest of these times.
pub ping_main-Answered :
    (width dst t : ℕ) (ts starts : List ℕ) (dev : Device) (os : List PingOption) {here : ℕ}
    → ping_options os none none ≡ pings dst (some (length starts))
    → dev.node ≡ some here
    → dev.bound ≡ true
    → dev.created ≡ true
    → dev.joined ≡ true
    → dev.signal_early ≡ false
    → dev.rounds ≡ map calm starts
    → length starts < 2 ^ 31
    → length starts < 2 ^ width
    → Answered dev.unique_id here dst
        (requests dev.unique_id 0 starts)
        (t ∷ ts)
        (dev.received dst (requests dev.unique_id 0 starts))
    → ping_main width dev os ≡ record {
      lines = printed dst (requests dev.unique_id 0 starts) (t ∷ ts);
      end = reported (record {
        sent_packets = length starts;
        recv_packets = length starts;
        rtt = some (least_of t ts, (total (t ∷ ts) % 2 ^ 64, greatest_of t ts));
      });
    }
unfolding ping_main run_ping run_threads join_sender report
ping_main-Answered width dst t ts starts dev os named node bound created joined early rounds int
      small answers =
    let fits : ltb (length starts) (2 ^ 31) ≡ true = ground (arith, int) in
    let sent = sender_body-calm width dev.unique_id 0 starts (omega arith) in
    let own = requests-own dev.unique_id 0 starts in
    let heard = receive_pings-Answered no_statistics answers own in
    let heard' = rw (length-requests dev.unique_id 0 starts) at heard in
    let counts = counted_all-first t ts (Answered-small answers).0 in
    let more : (length (t ∷ ts) == 0) ≡ false = ground arith in
    let all = Answered-length answers ∙ length-requests dev.unique_id 0 starts in
    rw (named, node, bound, created, joined, early, rounds, fits, sent, heard', counts, more, all)
      refl
