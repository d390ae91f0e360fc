-- ===== src/Common/Sched/Reading.antt =====
-- What `sch_decodeopt` reads, part by part, of the texts that `sch_encodeopt` writes.
use axiom_evi_apps.Prelude.{
  ℕ, ◌%◌, ◌^◌, ◌<◌, ◌≡◌, refl, arith, ap, sym, ◌∙◌, Bool, true, false, List, [], ◌∷◌, ◌++◌, some,
  ◌==◌, ◌&&◌, leb, length, length-append,
}
use mathlib.Core.List.{append-nil}
use axiom_evi_apps.Common.Sched.{
  Sched, sched_idle, sched_deadline, takes_one, sch_decodeopt, read_policy, read_param, read_params,
  in_unit, defaults, parsed, and_then, finish,
}

-- No digit goes on here.
abbrev pub Stops : List ℕ → Type 0
Stops [] = Unit {0}
Stops (c ∷ text) = (leb b'0' c && leb c b'9') ≡ false

-- The decimal numbers of the C library: strtol reads what snprintf prints, up to the first byte that
-- is no digit.
pub record Numerals : Type 0 where
  pub decimal : ℕ → List ℕ
  pub strtol : List ℕ → ℕ × List ℕ
  pub some_digits : (n : ℕ) → 0 < length (decimal n)
  pub reads :
      (n : ℕ) (rest : List ℕ) → n < 2 ^ 63 → Stops rest → strtol (decimal n ++ rest) ≡ (n, rest)

module _ (c : Numerals) where
  open c use {decimal, strtol, some_digits, reads}

  longer : (n : ℕ) (rest : List ℕ) → (length rest == length (decimal n ++ rest)) ≡ false
  longer n rest = ground (arith, length-append (decimal n) rest, some_digits n)

  policy_lem :
      (n : ℕ) (rest : List ℕ) (s : Sched)
      → n < 7
      → Stops rest
      → read_policy strtol (decimal n ++ rest) s ≡ parsed (record s { policy = n }) rest false
  unfolding read_policy
  policy_lem n rest s small stops =
      let e : n % 2 ^ 32 ≡ n = omega arith in
      rw (reads n rest (omega arith) stops, longer n rest, e) refl

  param_lem :
      (s s' : Sched) (percent : Bool) (store : ℕ → Sched) (v : ℕ) (rest : List ℕ) (per : Bool)
      → v < 2 ^ 63
      → Stops rest
      → read_param strtol s s' percent store false (b',' ∷ (decimal v ++ rest)) per
        ≡ parsed (store v) rest per
  unfolding read_param
  param_lem s s' percent store v rest per small stops =
      rw (reads v rest small stops, longer v rest) refl

  deadline_param_lem :
      (s s' : Sched) (percent : Bool) (store : ℕ → Sched) (v : ℕ) (rest : List ℕ) (per : Bool)
      → v < 2 ^ 63
      → read_param strtol s s' percent store true (b',' ∷ (decimal v ++ b'u' ∷ rest)) per
        ≡ parsed (store v) rest per
  unfolding read_param in_unit
  deadline_param_lem s s' percent store v rest per small =
      rw (reads v (b'u' ∷ rest) small refl, longer v (b'u' ∷ rest)) refl

  last_param_lem :
      (s s' : Sched) (percent : Bool) (store : ℕ → Sched) (v : ℕ) (per : Bool)
      → v < 2 ^ 63
      → read_param strtol s s' percent store false (b',' ∷ decimal v) per ≡ parsed (store v) [] per
  last_param_lem s s' percent store v per small =
      ap (λ text. read_param strtol s s' percent store false (b',' ∷ text) per)
        (sym (append-nil (decimal v)))
      ∙ param_lem s s' percent store v [] per small tt

  last_policy_lem :
      (n : ℕ) (s : Sched)
      → n < 7
      → read_policy strtol (decimal n) s ≡ parsed (record s { policy = n }) [] false
  last_policy_lem n s small =
      ap (λ text. read_policy strtol text s) (sym (append-nil (decimal n)))
      ∙ policy_lem n [] s small tt

  decoded :
      (text rest : List ℕ) (s s' s'' : Sched)
      → read_policy strtol text s ≡ parsed s' rest false
      → read_params strtol s' rest false ≡ parsed s'' [] false
      → sch_decodeopt strtol (some text) s ≡ (s'', true)
  unfolding sch_decodeopt finish
  decoded text rest s s' s'' policy params =
      ap (λ r. finish (and_then r (read_params strtol))) policy ∙ ap finish params

  read_three :
      (s s0 s1 s2 : Sched) (text rest0 rest1 rest2 : List ℕ) (deadline : Bool)
      → (s.policy == sched_deadline) ≡ deadline
      → read_param strtol s (defaults s) true (λ v. record s { p0 = v }) deadline text false
        ≡ parsed s0 rest0 false
      → read_param strtol s0 s0 false (λ v. record s0 { p1 = v }) deadline rest0 false
        ≡ parsed s1 rest1 false
      → read_param strtol s1 s1 false (λ v. record s1 { p2 = v }) deadline rest1 false
        ≡ parsed s2 rest2 false
      → read_params strtol s text false ≡ parsed s2 rest2 false
  unfolding read_params
  read_three s s0 s1 s2 text rest0 rest1 rest2 deadline on e0 e1 e2 = rw (on, e0, e1, e2) refl

  pub decode_idle :
      (s : Sched)
      → sch_decodeopt strtol (some (decimal sched_idle)) s
        ≡ (record s { policy = sched_idle }, true)
  unfolding read_params read_param defaults
  decode_idle s =
      decoded (decimal sched_idle) [] s _ _ (last_policy_lem sched_idle s (omega arith)) refl

  pub decode_one :
      (n v : ℕ) (s : Sched)
      → takes_one n ≡ true
      → v < 2 ^ 63
      → sch_decodeopt strtol (some (decimal n ++ b',' ∷ decimal v)) s
        ≡ (record s { policy = n; p0 = v }, true)
  unfolding read_param
  decode_one n v s one small =
      let named : Sched = record s { policy = n } in
      let below : n < 7 = ground arith in
      let other : (n == sched_deadline) ≡ false = ground arith in
      let first =
        last_param_lem named (defaults named) true (λ w. record named { p0 = w }) v false small in
      decoded (decimal n ++ b',' ∷ decimal v) (b',' ∷ decimal v) s named _
        (policy_lem n (b',' ∷ decimal v) s below refl)
        (read_three named _ _ _ (b',' ∷ decimal v) [] [] [] false other first refl refl)

  pub decode_deadline :
      (v0 v1 v2 : ℕ) (s : Sched)
      → v0 < 2 ^ 63
      → v1 < 2 ^ 63
      → v2 < 2 ^ 63
      → sch_decodeopt strtol
          (some (
            decimal sched_deadline
            ++ b','
              ∷ (decimal v0
                  ++ b'u' ∷ b',' ∷ (decimal v1 ++ b'u' ∷ b',' ∷ (decimal v2 ++ b'u' ∷ [])))))
          s
        ≡ (record { policy = sched_deadline; p0 = v0; p1 = v1; p2 = v2 }, true)
  decode_deadline v0 v1 v2 s small0 small1 small2 =
      let named : Sched = record s { policy = sched_deadline } in
      let s0 : Sched = record named { p0 = v0 } in
      let s1 : Sched = record s0 { p1 = v1 } in
      let text2 = b',' ∷ (decimal v2 ++ b'u' ∷ []) in
      let text1 = b',' ∷ (decimal v1 ++ b'u' ∷ text2) in
      let text0 = b',' ∷ (decimal v0 ++ b'u' ∷ text1) in
      decoded (decimal sched_deadline ++ text0) text0 s named _
        (policy_lem sched_deadline text0 s (omega arith) refl)
        (read_three named _ _ _ text0 text1 text2 [] true refl
          (deadline_param_lem named (defaults named) true (λ w. record named { p0 = w }) v0 text1
            false small0)
          (deadline_param_lem s0 s0 false (λ w. record s0 { p1 = w }) v1 text2 false small1)
          (deadline_param_lem s1 s1 false (λ w. record s1 { p2 = w }) v2 [] false small2))
