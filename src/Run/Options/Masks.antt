-- ===== src/Run/Options/Masks.antt =====
-- The masks of nodes, bit by bit.
use axiom_evi_apps.Prelude.{
  ℕ, ◌+◌, ◌-◌, ◌*◌, ◌^◌, ◌<◌, max, ◌≡◌, refl, arith, ap, bit_or, Bool, true, false, List, [], ◌∷◌,
  none, some, ltb, leb, ◌==◌, not, ◌&&◌, ◌||◌, if◌then◌else◌, Bool-cases, inl, inr, ◌∙◌,
}
use mathlib.Core.Bool.{true≢false, false≢true}
use native.Mathlib.Nat.{mod-lt}
use axiom_evi_apps.Bits.Words.{bit_or-lt}
use axiom_evi_apps.Bits.{test_bit, test_bit-zero, test_bit-le, test_bit-bit_or}
use axiom_evi_apps.Bits.Shift.{test_bit-mod, test_bit-shift, test_bit-ones}
use axiom_evi_apps.Run.Options.Nodes.{
  shift_left, all_nodes, all_nodes_mask, Token, node, range, unreadable, add_token, decode_tokens,
  tokens, decode_node_arg,
}

test_bit-shift_left :
    (x n k : ℕ) → k < 64 → test_bit (shift_left x n) k ≡ (if ltb k n then 0 else test_bit x (k - n))
test_bit-shift_left x n k lt = rw (test_bit-mod 64 (x * 2 ^ n) k lt) (test_bit-shift x n k)

-- Whether k stands in a token.
unfoldable pub in_token : ℕ → Token → Bool
in_token k (node a) = k == a
in_token k (range a b) = leb a k && leb k b
in_token k unreadable = false

unfoldable pub in_tokens : ℕ → List Token → Bool
unfolding in_token
in_tokens k [] = false
in_tokens k (t ∷ ts) = in_token k t || in_tokens k ts

abbrev pub bit_of : Bool → ℕ
bit_of b = if b then 1 else 0

test_bit-one : (k : ℕ) → test_bit 1 k ≡ bit_of (k == 0)
test_bit-one k = ground (arith, test_bit-ones 1 k)

test_bit-all_nodes : (k : ℕ) → k < 64 → test_bit all_nodes k ≡ bit_of (not (k == 0))
test_bit-all_nodes k lt = ground (arith, test_bit-shift (2 ^ 63 - 1) 1 k, test_bit-ones 63 (k - 1))

-- The mask of the first x nodes has the bits from 1 to x.
pub test_bit-all_nodes_mask :
    (x k : ℕ) → k < 64 → test_bit (all_nodes_mask x) k ≡ bit_of (leb 1 k && leb k x)
unfolding all_nodes_mask
test_bit-all_nodes_mask x k lt = ground (
  arith,
  test_bit-all_nodes k lt,
  test_bit-shift_left (2 ^ x - 1) 1 k lt,
  test_bit-ones x (k - 1),
)

add_token-bits :
    (t : Token) (r r' k : ℕ)
    → k < 64
    → test_bit r 0 ≡ 0
    → add_token t r ≡ some r'
    → test_bit r' k ≡ max (test_bit r k) (bit_of (in_token k t))
unfolding add_token in_token
add_token-bits (node a) r r' k lt clear e = ground (
  arith,
  e,
  test_bit-bit_or r (shift_left 1 a) k,
  test_bit-shift_left 1 a k lt,
  test_bit-one (k - a),
)
add_token-bits (range a b) r r' k lt clear e = ground (
  arith,
  e,
  clear,
  test_bit-le r k,
  test_bit-all_nodes k lt,
  test_bit-bit_or r (shift_left (2 ^ (b - a + 1) - 1) a) k,
  test_bit-shift_left (2 ^ (b - a + 1) - 1) a k lt,
  test_bit-ones (b - a + 1) (k - a),
)
add_token-bits unreadable r r' k lt clear e = cc

-- What the loop accepts.
unfoldable pub valid_token : Token → Bool
valid_token (node a) = leb 1 a && leb a 63
valid_token (range a b) = leb 1 a && (leb a b && leb b 63)
valid_token unreadable = false

unfoldable pub valid_tokens : List Token → Bool
unfolding valid_token
valid_tokens [] = true
valid_tokens (t ∷ ts) = valid_token t && valid_tokens ts

add_token-valid : (t : Token) (r : ℕ) → valid_token t ≡ true → (r' : ℕ) × (add_token t r ≡ some r')
unfolding add_token valid_token
add_token-valid (node a) r ok = (bit_or r (shift_left 1 a), ground arith)
add_token-valid (range a b) r ok = elim (Bool-cases (b - a + 1 == 63)) [
  | inl e ↦ (all_nodes, ground arith)
  | inr e ↦ (bit_or r (shift_left (2 ^ (b - a + 1) - 1) a), ground arith)
]
add_token-valid unreadable r ok = absurd (false≢true ok)

add_token-invalid : (t : Token) (r : ℕ) → valid_token t ≡ false → add_token t r ≡ none
unfolding add_token valid_token
add_token-invalid (node a) r bad = ground arith
add_token-invalid (range a b) r bad = ground arith
add_token-invalid unreadable r bad = refl

-- No accepted token names node 0.
in_token_zero : (t : Token) → valid_token t ≡ true → in_token 0 t ≡ false
unfolding in_token valid_token
in_token_zero (node a) ok = ground arith
in_token_zero (range a b) ok = ground arith
in_token_zero unreadable ok = refl

pub shift_left-lt : (x n : ℕ) → shift_left x n < 2 ^ 64
shift_left-lt x n = mod-lt (x * 2 ^ n) {m = 2 ^ 64} (omega arith)

add_token-lt : (t : Token) (r r' : ℕ) → r < 2 ^ 64 → add_token t r ≡ some r' → r' < 2 ^ 64
unfolding add_token
add_token-lt (node a) r r' fits e =
    ground (arith, e, bit_or-lt 64 r (shift_left 1 a) fits (shift_left-lt 1 a))
add_token-lt (range a b) r r' fits e = ground (
  arith,
  e,
  bit_or-lt 64 r (shift_left (2 ^ (b - a + 1) - 1) a) fits (shift_left-lt (2 ^ (b - a + 1) - 1) a),
)
add_token-lt unreadable r r' fits e = cc

-- What the mask is to be after the tokens, on top of r.
pub record Adds (ts : List Token) (r r' : ℕ) : Type 0 where
  pub fits : r' < 2 ^ 64
  pub bits : (k : ℕ) → k < 64 → test_bit r' k ≡ max (test_bit r k) (bit_of (in_tokens k ts))

max_bits : (x : ℕ) (a b : Bool) → max (max x (bit_of a)) (bit_of b) ≡ max x (bit_of (a || b))
max_bits x true true = omega arith
max_bits x true false = omega arith
max_bits x false true = omega arith
max_bits x false false = omega arith

decode_tokens-Adds :
    (ts : List Token) (r : ℕ)
    → r < 2 ^ 64
    → test_bit r 0 ≡ 0
    → valid_tokens ts ≡ true
    → (r' : ℕ) × (decode_tokens ts r ≡ some r') × Adds ts r r'
unfolding decode_tokens valid_tokens in_tokens
decode_tokens-Adds [] r fits clear ok =
    (r, refl, record { fits = fits; bits = λ k lt. omega (arith, test_bit-le r k) })
decode_tokens-Adds (t ∷ ts) r fits clear ok =
    let valid : valid_token t ≡ true = ground arith in
    let (r₁, added) = add_token-valid t r valid in
    let clear₁ : test_bit r₁ 0 ≡ 0 =
      ground (arith, add_token-bits t r r₁ 0 (omega arith) clear added, in_token_zero t valid) in
    let (r', decoded, adds) =
      decode_tokens-Adds ts r₁ (add_token-lt t r r₁ fits added) clear₁ (ground arith) in
    (
      r',
      rw (decode_tokens, added) decoded,
      record {
        fits = adds.fits;
        bits = λ k lt.
            adds.bits k lt
            ∙ ap (λ (m : ℕ). max m (bit_of (in_tokens k ts)))
                (add_token-bits t r r₁ k lt clear added)
            ∙ max_bits (test_bit r k) (in_token k t) (in_tokens k ts);
      },
    )

-- The argument of `-n` as a list whose numbers are from 1 to 63 and whose ranges do not fall: the
-- mask fits 64 bits, and has bit k for the nodes k that stand in the list, alone or in a range, and
-- for no other.
pub decode_node_arg-tokens :
    (ts : List Token)
    → valid_tokens ts ≡ true
    → (r : ℕ) × (decode_node_arg (tokens ts) ≡ some r)
      × (r < 2 ^ 64)
      × ((k : ℕ) → k < 64 → test_bit r k ≡ bit_of (in_tokens k ts))
unfolding decode_node_arg
decode_node_arg-tokens ts ok =
    let (r, decoded, adds) = decode_tokens-Adds ts 0 (omega arith) (test_bit-zero 0) ok in
    (r, decoded, adds.fits, λ k lt. omega (arith, adds.bits k lt, test_bit-zero k))

-- Any other list ends in the usage message, wherever the bad token stands.
pub decode_tokens-invalid :
    (ts : List Token) (r : ℕ) → valid_tokens ts ≡ false → decode_tokens ts r ≡ none
unfolding decode_tokens valid_tokens
decode_tokens-invalid [] r bad = absurd (true≢false bad)
decode_tokens-invalid (t ∷ ts) r bad = elim (Bool-cases (valid_token t)) [
  | inl e ↦
      let (r', added) = add_token-valid t r e in
      rw (decode_tokens, added) (decode_tokens-invalid ts r' (ground arith))
  | inr e ↦ rw (decode_tokens, add_token-invalid t r e) refl
]
