-- ===== src/Common/Sched/Tests.antt =====
-- A decimal notation, and an option that is passed on.
use axiom_evi_apps.Prelude.{
  ℕ, zero, suc, ◌+◌, ◌-◌, ◌*◌, ◌/◌, ◌%◌, ◌^◌, ◌≤◌, ◌<◌, ◌≡◌, refl, arith, ap, ◌∙◌, true, false,
  List, [], ◌∷◌, ◌++◌, some, ◌&&◌, ltb, leb, Bool-cases, inl, inr, length, if◌then◌else◌,
}
use axiom_evi_apps.Common.Sched.{
  Sched, sched_text, sch_encodeopt, sch_decodeopt, sch_setsched, read_policy, by_name, starts_with,
  read_params, read_param, in_unit, defaults, finish,
}
use axiom_evi_apps.Common.Sched.Reading.{Stops, Numerals}
use axiom_evi_apps.Common.Sched.Carried.{sch_decodeopt-encodeopt}

digits : ℕ → ℕ → List ℕ → List ℕ
digits zero n text = text
digits (suc fuel) n text =
    let text' = (b'0' + n % 10) ∷ text in
    let rest = digits fuel (n / 10) text' in if ltb n 10 then text' else rest

scan : ℕ → List ℕ → ℕ × List ℕ
scan v [] = (v, [])
scan v (c ∷ text) =
    let rest = scan (v * 10 + (c - b'0')) text in
    if leb b'0' c && leb c b'9' then rest else (v, c ∷ text)

scan_digit :
    (v d : ℕ) (text : List ℕ) → d < 10 → scan v ((b'0' + d) ∷ text) ≡ scan (v * 10 + d) text
unfolding scan
scan_digit v d text small =
    let above : leb b'0' (b'0' + d) ≡ true = ground arith in
    let below : leb (b'0' + d) b'9' ≡ true = ground arith in
    let value : b'0' + d - b'0' ≡ d = omega arith in rw (above, below, value) refl

scan-digits : (fuel n : ℕ) (text : List ℕ) → n < fuel → scan 0 (digits fuel n text) ≡ scan n text
unfolding digits
scan-digits zero n text enough = absurd (omega arith)
scan-digits (suc fuel) n text enough = elim (Bool-cases (ltb n 10)) [
  | inl last ↦
      let whole : 0 * 10 + n % 10 ≡ n = ground arith in
      rw last (scan_digit 0 (n % 10) text (omega arith) ∙ ap (λ k. scan k text) whole)
  | inr more ↦
      let whole : n / 10 * 10 + n % 10 ≡ n = omega arith in
      rw more (
        scan-digits fuel (n / 10) ((b'0' + n % 10) ∷ text) (ground arith)
        ∙ scan_digit (n / 10) (n % 10) text (omega arith)
        ∙ ap (λ k. scan k text) whole)
]

scan-Stops : (n : ℕ) (text : List ℕ) → Stops text → scan n text ≡ (n, text)
unfolding scan
scan-Stops n [] stops = refl
scan-Stops n (c ∷ text) stops = rw stops refl

digits-append :
    (fuel n : ℕ) (text rest : List ℕ) → digits fuel n text ++ rest ≡ digits fuel n (text ++ rest)
unfolding digits
digits-append zero n text rest = refl
digits-append (suc fuel) n text rest = elim (Bool-cases (ltb n 10)) [
  | inl last ↦ rw last refl
  | inr more ↦ rw more (digits-append fuel (n / 10) ((b'0' + n % 10) ∷ text) rest)
]

length-digits : (fuel n : ℕ) (text : List ℕ) → length text ≤ length (digits fuel n text)
unfolding digits
length-digits zero n text = omega arith
length-digits (suc fuel) n text = elim (Bool-cases (ltb n 10)) [
  | inl last ↦ rw last (omega arith)
  | inr more ↦ rw more (omega (arith, length-digits fuel (n / 10) ((b'0' + n % 10) ∷ text)))
]

some_digits : (n : ℕ) → 0 < length (digits (suc n) n [])
unfolding digits
some_digits n = elim (Bool-cases (ltb n 10)) [
  | inl last ↦ rw last (omega arith)
  | inr more ↦ rw more (omega (arith, length-digits n (n / 10) ((b'0' + n % 10) ∷ [])))
]

read_back :
    (n : ℕ) (rest : List ℕ)
    → n < 2 ^ 63
    → Stops rest
    → scan 0 (digits (suc n) n [] ++ rest) ≡ (n, rest)
read_back n rest small stops =
    ap (scan 0) (digits-append (suc n) n [] rest)
    ∙ scan-digits (suc n) n rest (omega arith)
    ∙ scan-Stops n rest stops

abbrev decimals : Numerals
decimals = record {
  decimal = λ n. digits (suc n) n [];
  strtol = scan 0;
  some_digits = some_digits;
  reads = read_back;
}

-- "1,25"
abbrev option : List ℕ
option = b'1' ∷ b',' ∷ b'2' ∷ b'5' ∷ []

abbrev fifo : Sched
fifo = record { policy = 1; p0 = 25; p1 = 7; p2 = 0 }

abbrev before : Sched
before = record { policy = 0; p0 = 0; p1 = 0; p2 = 0 }

sch_decodeopt-encodeopt_example :
    (sch_encodeopt decimals.decimal 32 fifo ≡ some option)
    × ((sch_decodeopt decimals.strtol (some option) before).1 ≡ true)
    × (sch_setsched (sch_decodeopt decimals.strtol (some option) before).0 ≡ sch_setsched fifo)
unfolding sched_text digits
sch_decodeopt-encodeopt_example =
    sch_decodeopt-encodeopt decimals 32 fifo before option (omega arith) (omega arith) (omega arith)
      refl (omega arith)

-- "DEADLINE,10%": the period is the one of before, and not the default.
percent_of_nothing :
    sch_decodeopt
      (scan 0)
      (some
        (b'D' ∷ b'E' ∷ b'A' ∷ b'D' ∷ b'L' ∷ b'I' ∷ b'N' ∷ b'E' ∷ b',' ∷ b'1' ∷ b'0' ∷ b'%' ∷ []))
      before
    ≡ (record { policy = 6; p0 = 0; p1 = 0; p2 = 0 }, true)
unfolding sch_decodeopt scan read_policy by_name starts_with read_params read_param in_unit finish
    defaults
percent_of_nothing = refl

-- "RR:1", as the usage text writes it.
colon : (sch_decodeopt (scan 0) (some (b'R' ∷ b'R' ∷ b':' ∷ b'1' ∷ [])) before).1 ≡ false
unfolding sch_decodeopt scan read_policy by_name starts_with read_params read_param in_unit finish
    defaults
colon = refl

-- A name that is not known: the policy is then the 0 that strtol gave.
unknown_name :
    sch_decodeopt (scan 0) (some (b'X' ∷ [])) (record { policy = 5; p0 = 1; p1 = 2; p2 = 3 })
    ≡ (record { policy = 0; p0 = 1; p1 = 2; p2 = 3 }, false)
unfolding sch_decodeopt scan read_policy by_name starts_with read_params read_param in_unit finish
unknown_name = refl
