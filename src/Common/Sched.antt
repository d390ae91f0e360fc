-- ===== src/Common/Sched.antt =====
-- axiom_common_library/schedfuncs.c: the scheduling option, which axiom-run passes on to its slaves
-- as text. A text is the list of its bytes, without the NUL at its end. The parameters are uint64_t.
-- The numbers of the policies are those of the Linux headers. strtol and the decimal printing of
-- snprintf are parameters; the messages of `_usage` are left out.
pub mod Reading
pub mod Carried
mod Tests
use mathlib.Core.Option
use axiom_evi_apps.Prelude.{
  ℕ, zero, suc, ◌+◌, ◌-◌, ◌*◌, ◌/◌, ◌%◌, ◌^◌, Bool, true, false, List, [], ◌∷◌, ◌++◌, Option, none,
  some, ◌==◌, ◌&&◌, ◌||◌, length, take, drop, if◌then◌else◌,
}

abbrev pub sched_other : ℕ
sched_other = 0

abbrev pub sched_fifo : ℕ
sched_fifo = 1

abbrev pub sched_rr : ℕ
sched_rr = 2

abbrev pub sched_batch : ℕ
sched_batch = 3

abbrev pub sched_idle : ℕ
sched_idle = 5

abbrev pub sched_deadline : ℕ
sched_deadline = 6

-- The static variables of the file.
pub record Sched : Type 0 where
  pub policy : ℕ
  pub p0 : ℕ
  pub p1 : ℕ
  pub p2 : ℕ

-- The policies with one parameter.
abbrev pub takes_one : ℕ → Bool
takes_one policy =
    policy == sched_other || policy == sched_batch || policy == sched_fifo || policy == sched_rr

-- The text, or none where `sch_encodeopt` leaves the buffer as it is.
unfoldable pub sched_text : (ℕ → List ℕ) → Sched → Option (List ℕ)
sched_text decimal s =
    if s.policy == sched_idle
    then some (decimal s.policy)
    else if takes_one s.policy
    then some (decimal s.policy ++ b',' ∷ decimal s.p0)
    else if s.policy == sched_deadline
    then some (
        decimal s.policy
        ++ b','
          ∷ (decimal s.p0
              ++ b'u' ∷ b',' ∷ (decimal s.p1 ++ b'u' ∷ b',' ∷ (decimal s.p2 ++ b'u' ∷ []))))
    else none

-- What snprintf leaves in a buffer of `bufsize` bytes.
unfoldable pub sch_encodeopt : (ℕ → List ℕ) → ℕ → Sched → Option (List ℕ)
sch_encodeopt decimal bufsize s = Option.map (take (bufsize - 1)) (sched_text decimal s)

-- The result of a part of `sch_decodeopt`: the variables, the text from `end` on and `per`, or the
-- variables where the function returns -1.
pub data Parsed : Type 0 where
  parsed : Sched → List ℕ → Bool → Parsed
  failed : Sched → Parsed

-- strncmp with the length of the name
unfoldable pub starts_with : List ℕ → List ℕ → Bool
starts_with [] text = true
starts_with (n ∷ name) [] = false
starts_with (n ∷ name) (c ∷ text) = n == c && starts_with name text

-- The policy by its name.
unfoldable pub by_name : List ℕ → Sched → Parsed
unfolding starts_with
by_name text s =
    let named : ℕ → ℕ → Parsed =
      λ policy n. parsed (record s { policy = policy }) (drop n text) false in
    if starts_with (b'O' ∷ b'T' ∷ b'H' ∷ b'E' ∷ b'R' ∷ []) text
    then named sched_other 5
    else if starts_with (b'D' ∷ b'E' ∷ b'A' ∷ b'D' ∷ b'L' ∷ b'I' ∷ b'N' ∷ b'E' ∷ []) text
    then named sched_deadline 8
    else if starts_with (b'F' ∷ b'I' ∷ b'F' ∷ b'O' ∷ []) text
    then named sched_fifo 4
    else if starts_with (b'B' ∷ b'A' ∷ b'T' ∷ b'C' ∷ b'H' ∷ []) text
    then named sched_batch 5
    else if starts_with (b'I' ∷ b'D' ∷ b'L' ∷ b'E' ∷ []) text
    then named sched_idle 4
    else if starts_with (b'R' ∷ b'R' ∷ []) text
    then named sched_rr 2
    else failed s

-- The policy, by its number or its name; strtol gives the number as a word of 64 bits and the text
-- that it has not read.
unfoldable pub read_policy : (List ℕ → ℕ × List ℕ) → List ℕ → Sched → Parsed
read_policy strtol text s =
    let r = strtol text in
    let s' = record s { policy = r.0 % 2 ^ 32 } in
    if length r.1 == length text then by_name text s' else parsed s' r.1 false

-- The unit of a parameter of the deadline policy, which counts microseconds.
unfoldable pub in_unit : Bool → (ℕ → Sched) → ℕ → List ℕ → Bool → Parsed
in_unit percent store v [] per = parsed (store (v * 1000000 % 2 ^ 64)) [] per
in_unit percent store v (c ∷ rest) per =
    if c == b'u'
    then parsed (store v) rest per
    else if c == b'm'
    then parsed (store (v * 1000 % 2 ^ 64)) rest per
    else if percent && c == b'%'
    then parsed (store v) rest true
    else parsed (store (v * 1000000 % 2 ^ 64)) (c ∷ rest) per

-- One parameter: the variables so far and those for a text without it, whether it may be a
-- percentage, and the variable that it goes to.
unfoldable pub read_param :
    (List ℕ → ℕ × List ℕ) → Sched → Sched → Bool → (ℕ → Sched) → Bool → List ℕ → Bool → Parsed
unfolding in_unit
read_param strtol s missing percent store deadline [] per = parsed missing [] per
read_param strtol s missing percent store deadline (c ∷ text) per =
    let r = strtol text in
    if c == b','
    then if length r.1 == length text
      then failed (store r.0)
      else if deadline
      then in_unit percent store r.0 r.1 per
      else parsed (store r.0) r.1 per
    else failed s

-- The parameters where the text names the policy alone.
unfoldable pub defaults : Sched → Sched
defaults s =
    if s.policy == sched_other || s.policy == sched_batch
    then record s { p0 = 0 }
    else if s.policy == sched_fifo || s.policy == sched_rr
    then record s { p0 = 1 }
    else if s.policy == sched_deadline
    then record s { p0 = 100 * 1000; p1 = 995 * 1000; p2 = 1000 * 1000 }
    else s

abbrev pub and_then : Parsed → (Sched → List ℕ → Bool → Parsed) → Parsed
and_then (parsed s text per) f = f s text per
and_then (failed s) f = failed s

-- The end: no text may be left. The result is the variables, and whether the function returns 0.
unfoldable pub finish : Parsed → Sched × Bool
finish (failed s) = (s, false)
finish (parsed s (c ∷ text) per) = (s, false)
finish (parsed s [] per) = (if per then record s { p0 = s.p0 * s.p2 % 2 ^ 64 / 100 } else s, true)

-- The three parameters, in order.
unfoldable pub read_params : (List ℕ → ℕ × List ℕ) → Sched → List ℕ → Bool → Parsed
read_params strtol s text per =
    let deadline = s.policy == sched_deadline in
    and_then
      (and_then (read_param strtol s (defaults s) true (λ v. record s { p0 = v }) deadline text per)
        (λ s' rest per'.
          read_param strtol s' s' false (λ v. record s' { p1 = v }) deadline rest per'))
      (λ s' rest per'. read_param strtol s' s' false (λ v. record s' { p2 = v }) deadline rest per')

unfoldable pub sch_decodeopt : (List ℕ → ℕ × List ℕ) → Option (List ℕ) → Sched → Sched × Bool
sch_decodeopt strtol none s = (s, true)
sch_decodeopt strtol (some text) s =
    finish (and_then (read_policy strtol text s) (read_params strtol))

-- struct sched_attr, as sch_setsched fills it in.
pub record SchedAttr : Type 0 where
  pub sched_policy : ℕ
  pub sched_nice : ℕ
  pub sched_priority : ℕ
  pub sched_runtime : ℕ
  pub sched_deadline : ℕ
  pub sched_period : ℕ

abbrev no_parameters : ℕ → SchedAttr
no_parameters policy = record {
  sched_policy = policy;
  sched_nice = 0;
  sched_priority = 0;
  sched_runtime = 0;
  sched_deadline = 0;
  sched_period = 0;
}

-- What sch_setsched asks the kernel for: words of 32 and 64 bits.
unfoldable pub sch_setsched : Sched → SchedAttr
sch_setsched s =
    let attr = no_parameters s.policy in
    if s.policy == sched_other || s.policy == sched_batch
    then record attr { sched_nice = s.p0 % 2 ^ 32 }
    else if s.policy == sched_fifo || s.policy == sched_rr
    then record attr { sched_priority = s.p0 % 2 ^ 32 }
    else if s.policy == sched_deadline
    then record attr {
      sched_runtime = s.p0 * 1000 % 2 ^ 64;
      sched_deadline = s.p1 * 1000 % 2 ^ 64;
      sched_period = s.p2 * 1000 % 2 ^ 64;
    }
    else attr
