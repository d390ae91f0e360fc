-- ===== src/Init/Spawn/Slots.antt =====
-- The search for a slot, and what a change of one slot means for the sessions.
use axiom_evi_apps.Prelude.{
  ℕ, zero, suc, ◌+◌, ◌<◌, ◌≡◌, refl, ◌≢◌, ◌∙◌, arith, false, List, [], ◌∷◌, Option, none, some,
  ◌==◌, if◌then◌else◌, Bool-cases, ◌⊎◌, inl, inr, length, get_or, set,
}
use axiom_evi_apps.Init.Spawn.{Slot, find_slot}

-- The slot of a session.
unfoldable pub lookup : ℕ → List Slot → Option Slot
lookup session [] = none
lookup session (s ∷ ss) = if s.session_id == session then some s else lookup session ss

pub lookup-set_other :
    (session : ℕ) (slots : List Slot) (i : ℕ) (old new : Slot)
    → get_or slots i old ≡ old
    → old.session_id ≢ session
    → new.session_id ≢ session
    → lookup session (set slots i new) ≡ lookup session slots
unfolding lookup
lookup-set_other session [] i old new e ne ne' = refl
lookup-set_other session (s ∷ ss) zero old new e ne ne' = ground arith
lookup-set_other session (s ∷ ss) (suc i) old new e ne ne' =
    ground (arith, lookup-set_other session ss i old new e ne ne')

-- The search for a session that has a slot.
pub record Has (empty session : ℕ) (slots : List Slot) (slot default : Slot) (start : ℕ)
    (free : Option ℕ) : Type 0 where
  pub at : ℕ
  pub found : (find_slot empty session slots start free).0 ≡ start + at
  pub in_range : at < length slots
  pub here : get_or slots at default ≡ slot
  pub own : slot.session_id ≡ session
  pub replaced :
      (new : Slot) → new.session_id ≡ session → lookup session (set slots at new) ≡ some new

pub find_slot-Has :
    (empty session : ℕ) (slots : List Slot) (slot default : Slot) (start : ℕ) (free : Option ℕ)
    → lookup session slots ≡ some slot
    → Has empty session slots slot default start free
unfolding lookup find_slot
find_slot-Has empty session [] slot default start free e = absurd (ground arith)
find_slot-Has empty session (s ∷ ss) slot default start free e =
    elim (Bool-cases (s.session_id == session)) [
      | inl here ↦
          let same : s ≡ slot = ground arith in
          record {
            at = 0;
            found = rw here (ground arith);
            in_range = ground arith;
            here = same;
            own = rw (← same) (ground arith);
            replaced = λ new own. ground arith;
          }
      | inr there ↦
          let r =
            find_slot-Has empty session ss slot default (start + 1)
              (if s.session_id == empty then some start else free) (ground arith) in
          record {
            at = suc r.at;
            found = rw there (r.found ∙ omega arith);
            in_range = omega (arith, r.in_range);
            here = r.here;
            own = r.own;
            replaced = λ new own. ground (arith, r.replaced new own);
          }
    ]

-- The search for a session that has none: what `idx_free` is.
pub record HasNot (empty session : ℕ) (slots : List Slot) (default : Slot) (start : ℕ)
    (free : Option ℕ) : Type 0 where
  pub to_end : (find_slot empty session slots start free).0 ≡ start + length slots
  pub is_free :
      (j : ℕ)
      → (find_slot empty session slots start free).1 ≡ some j
      → (free ≡ some j)
        ⊎ ((i : ℕ) × (j ≡ start + i)
            × (i < length slots)
            × ((get_or slots i default).session_id ≡ empty))

pub find_slot-HasNot :
    (empty session : ℕ) (slots : List Slot) (default : Slot) (start : ℕ) (free : Option ℕ)
    → lookup session slots ≡ none
    → HasNot empty session slots default start free
unfolding lookup find_slot
find_slot-HasNot empty session [] default start free e = record {
  to_end = omega arith;
  is_free = λ j h. inl h;
}
find_slot-HasNot empty session (s ∷ ss) default start free e =
    let free' = if s.session_id == empty then some start else free in
    let there : (s.session_id == session) ≡ false = ground arith in
    let r = find_slot-HasNot empty session ss default (start + 1) free' (ground arith) in
    record {
      to_end = rw there (r.to_end ∙ omega arith);
      is_free = λ j h. elim (r.is_free j (rw there at h)) [
        | inl now ↦ elim (Bool-cases (s.session_id == empty)) [
          | inl unset ↦ inr (0, ground arith, omega arith, ground arith)
          | inr taken ↦ inl (ground arith)
        ]
        | inr (i, e', lt, unset) ↦ inr (suc i, omega arith, omega arith, unset)
      ];
    }
