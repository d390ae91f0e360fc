-- ===== src/Common/Sched/Carried.antt =====
-- The option that axiom-run encodes for a slave, decoded by the slave.
use axiom_evi_apps.Prelude.{
  ℕ, zero, suc, ◌-◌, ◌^◌, ◌≤◌, ◌<◌, ◌≡◌, refl, arith, ap, ◌∙◌, Bool, true, List, [], ◌∷◌, ◌++◌,
  some, ◌==◌, Bool-cases, inl, inr, length, take,
}
use mathlib.Core.Option
use mathlib.Core.Path.{subst}
use axiom_evi_apps.Common.Sched.{
  Sched, sched_idle, sched_deadline, takes_one, sched_text, sch_encodeopt, sch_decodeopt,
  sch_setsched,
}
use axiom_evi_apps.Common.Sched.Reading.{Numerals, decode_idle, decode_one, decode_deadline}

take-all : (n : ℕ) (xs : List ℕ) → length xs ≤ n → take n xs ≡ xs
take-all zero [] le = refl
take-all zero (x ∷ xs) le = absurd (omega arith)
take-all (suc n) [] le = refl
take-all (suc n) (x ∷ xs) le = ap (λ (ys : List ℕ). x ∷ ys) (take-all n xs (omega arith))

same_attr :
    (n v q0 q1 q2 r1 r2 : ℕ)
    → takes_one n ≡ true
    → sch_setsched (record { policy = n; p0 = v; p1 = q1; p2 = q2 })
      ≡ sch_setsched (record { policy = n; p0 = v; p1 = r1; p2 = r2 })
unfolding sch_setsched
same_attr n v q0 q1 q2 r1 r2 one = ground arith

module _ (c : Numerals) where
  open c use {decimal, strtol}

  -- What decoding a text makes of the variables, told by what the kernel is then asked for.
  Sets : List ℕ → Sched → Sched → Type 0
  Sets text s' s =
      ((sch_decodeopt strtol (some text) s').1 ≡ true)
      × (sch_setsched (sch_decodeopt strtol (some text) s').0 ≡ sch_setsched s)

  eq-Sets :
      (text : List ℕ) (s' s'' s : Sched)
      → sch_decodeopt strtol (some text) s' ≡ (s'', true)
      → sch_setsched s'' ≡ sch_setsched s
      → Sets text s' s
  unfolding Sets
  eq-Sets text s' s'' s e same =
      (ap (λ (r : Sched × Bool). r.1) e, ap (λ (r : Sched × Bool). sch_setsched r.0) e ∙ same)

  sched_text-Sets :
      (n v0 v1 v2 : ℕ) (s' : Sched) (text : List ℕ)
      → v0 < 2 ^ 63
      → v1 < 2 ^ 63
      → v2 < 2 ^ 63
      → sched_text decimal (record { policy = n; p0 = v0; p1 = v1; p2 = v2 }) ≡ some text
      → Sets text s' (record { policy = n; p0 = v0; p1 = v1; p2 = v2 })
  unfolding sched_text sch_setsched
  sched_text-Sets n v0 v1 v2 s' text small0 small1 small2 e =
      let s : Sched = record { policy = n; p0 = v0; p1 = v1; p2 = v2 } in
      elim (Bool-cases (n == sched_idle)) [
        | inl idle ↦
            let is : n ≡ sched_idle = ground arith in
            let text_is : decimal sched_idle ≡ text = ground (arith, is) in
            eq-Sets text s' _ s
              (subst
                (λ t. sch_decodeopt strtol (some t) s' ≡ (record s' { policy = sched_idle }, true))
                text_is (decode_idle c s'))
              (rw is refl)
        | inr busy ↦ elim (Bool-cases (takes_one n)) [
          | inl one ↦
              let text_is : decimal n ++ b',' ∷ decimal v0 ≡ text = ground (arith, one) in
              eq-Sets text s' _ s
                (subst
                  (λ t.
                    sch_decodeopt strtol (some t) s' ≡ (record s' { policy = n; p0 = v0 }, true))
                  text_is (decode_one c n v0 s' one small0))
                (same_attr n v0 v0 s'.p1 s'.p2 v1 v2 one)
          | inr many ↦ elim (Bool-cases (n == sched_deadline)) [
            | inl deadline ↦
                let is : n ≡ sched_deadline = ground arith in
                let d : Sched = record { policy = sched_deadline; p0 = v0; p1 = v1; p2 = v2 } in
                let text_is : decimal sched_deadline
                      ++ b','
                        ∷ (decimal v0
                            ++ b'u'
                              ∷ b','
                              ∷ (decimal v1 ++ b'u' ∷ b',' ∷ (decimal v2 ++ b'u' ∷ [])))
                    ≡ text =
                  ground (arith, is) in
                eq-Sets text s' d s
                  (subst (λ t. sch_decodeopt strtol (some t) s' ≡ (d, true)) text_is
                    (decode_deadline c v0 v1 v2 s' small0 small1 small2))
                  (rw is refl)
            | inr unknown ↦ absurd (ground arith)
          ]
        ]
      ]

  -- The scheduling option of the master, encoded into a buffer that it fits and decoded by a slave,
  -- whatever variables the slave had: the decoding succeeds, and the slave asks the kernel for the
  -- master's scheduling. `text` is the whole text, which only the six policies have; the parameters
  -- are in the range of strtol.
  pub sch_decodeopt-encodeopt :
      (bufsize : ℕ) (s s' : Sched) (text : List ℕ)
      → s.p0 < 2 ^ 63
      → s.p1 < 2 ^ 63
      → s.p2 < 2 ^ 63
      → sched_text decimal s ≡ some text
      → length text < bufsize
      → (sch_encodeopt decimal bufsize s ≡ some text)
        × ((sch_decodeopt strtol (some text) s').1 ≡ true)
        × (sch_setsched (sch_decodeopt strtol (some text) s').0 ≡ sch_setsched s)
  unfolding sch_encodeopt Sets
  sch_decodeopt-encodeopt bufsize s s' text small0 small1 small2 e fits =
      let back = sched_text-Sets s.policy s.p0 s.p1 s.p2 s' text small0 small1 small2 e in
      (
        ap (Option.map (take (bufsize - 1))) e
            ∙ ap (λ (t : List ℕ). some t) (take-all (bufsize - 1) text (omega arith)),
        back.0,
        back.1,
      )
