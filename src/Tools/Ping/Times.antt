-- ===== src/Tools/Ping/Times.antt =====
-- The statistics of the receiver, of the times of all answers.
use axiom_evi_apps.Prelude.{
  ℕ, ◌+◌, ◌-◌, ◌%◌, ◌^◌, ◌<◌, ◌≤◌, min, max, ◌≡◌, refl, arith, List, [], ◌∷◌, All, length, ltb,
  if◌then◌else◌,
}
use axiom_evi_apps.Init.Replies.{Ping}
use axiom_evi_apps.Tools.Ping.{Reception, Statistics, no_statistics, add_time}
use axiom_evi_apps.Tools.Ping.Hearing.{counted_all, Answered, nothing_more, foreign, answer}

unfoldable pub total : List ℕ → ℕ
total [] = 0
total (t ∷ ts) = t + total ts

-- The least and the greatest of a first number and others.
unfoldable pub least_of : ℕ → List ℕ → ℕ
least_of t [] = t
least_of t (u ∷ us) = min t (least_of u us)

unfoldable pub greatest_of : ℕ → List ℕ → ℕ
greatest_of t [] = t
greatest_of t (u ∷ us) = max t (greatest_of u us)

max_lem : (a t : ℕ) → (if ltb a t then t else a) ≡ max a t
max_lem a t = ground arith

min_lem : (a t : ℕ) → (if ltb t a then t else a) ≡ min a t
min_lem a t = ground arith

max_assoc : (a t g : ℕ) → max (max a t) g ≡ max a (max t g)
max_assoc a t g = omega arith

min_assoc : (a t g : ℕ) → min (min a t) g ≡ min a (min t g)
min_assoc a t g = omega arith

mod_later : (a t n : ℕ) → ((a + t) % 2 ^ 64 + n) % 2 ^ 64 ≡ (a + (t + n)) % 2 ^ 64
mod_later a t n = omega arith

pub counted_all_lem :
    (t : ℕ) (ts : List ℕ) (s : Statistics)
    → counted_all (t ∷ ts) s ≡ record {
      recv_packets = s.recv_packets + length (t ∷ ts);
      sum_nsec = (s.sum_nsec + total (t ∷ ts)) % 2 ^ 64;
      max_nsec = max s.max_nsec (greatest_of t ts);
      min_nsec = min s.min_nsec (least_of t ts);
    }
unfolding counted_all add_time total greatest_of least_of
counted_all_lem t [] s =
    let last : t + 0 ≡ t = omega arith in rw (max_lem s.max_nsec t, min_lem s.min_nsec t, last) refl
counted_all_lem t (u ∷ us) s =
    let later = counted_all_lem u us (add_time t s) in
    let numbers : s.recv_packets + 1 + length (u ∷ us) ≡ s.recv_packets + length (t ∷ u ∷ us) =
      omega arith in
    rw (later, max_lem s.max_nsec t, min_lem s.min_nsec t, max_assoc, min_assoc, mod_later, numbers)
      refl

-- Times fit 64 bits.
pub Answered-small :
    {unique_id here dst : ℕ} {ps : List Ping} {ts : List ℕ} {rs : List Reception}
    (answers : Answered unique_id here dst ps ts rs)
    → All (λ t. t < 2 ^ 64) ts
Answered-small nothing_more = tt
Answered-small (foreign other answers) = Answered-small answers
Answered-small (answer made before small answers) = (omega arith, Answered-small answers)

least_of-le : (t : ℕ) (ts : List ℕ) → least_of t ts ≤ t
unfolding least_of
least_of-le t [] = omega arith
least_of-le t (u ∷ us) = omega arith

pub counted_all-first :
    (t : ℕ) (ts : List ℕ)
    → t < 2 ^ 64
    → counted_all (t ∷ ts) no_statistics ≡ record {
      recv_packets = length (t ∷ ts);
      sum_nsec = total (t ∷ ts) % 2 ^ 64;
      max_nsec = greatest_of t ts;
      min_nsec = least_of t ts;
    }
counted_all-first t ts small =
    let below = least_of-le t ts in
    let least : min (2 ^ 64 - 1) (least_of t ts) ≡ least_of t ts = omega arith in
    let greatest : max 0 (greatest_of t ts) ≡ greatest_of t ts = omega arith in
    let number : 0 + length (t ∷ ts) ≡ length (t ∷ ts) = omega arith in
    let sum : 0 + total (t ∷ ts) ≡ total (t ∷ ts) = omega arith in
    rw (counted_all_lem t ts no_statistics, least, greatest, number, sum) refl
