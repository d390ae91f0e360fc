-- ===== src/Init/Tables.antt =====
-- axiom-init/axiom-init.c: the file of the routing table. A file is the list of the numbers on its
-- lines, as strtol reads them, or `negative`; an entry is a mask of
-- interfaces, a uint8_t. AXIOM_NODES_NUM is an argument, and so is whether the file opens.
pub mod Saved
mod Tests
use axiom_evi_apps.Prelude.{
  ℕ, zero, suc, ◌+◌, ◌%◌, ◌^◌, Bool, true, false, List, [], ◌∷◌, map, Option, none, some, ltb, ◌==◌,
  not, Outcome, done, undefined, aborted, ◌>>=◌, if◌then◌else◌,
}
use axiom_evi_apps.Init.Session.{ctz}

pub data Line : Type 0 where
  number : ℕ → Line
  negative : Line

abbrev pub update : (ℕ → ℕ) → ℕ → ℕ → ℕ → ℕ
update table k v j = if j == k then v else table j

-- `(1 << val)` as a uint8_t. The test before it, `(val >= 0) || (val <= AXIOM_INTERFACES_MAX)`, holds
-- for every number.
unfoldable pub shifted : Line → Outcome ℕ
shifted negative = undefined
shifted (number val) = if ltb val 32 then done (2 ^ val % 2 ^ 8) else undefined

-- The `while` over the lines, the one at `line_count` next, in a table of n entries; none for the
-- return of -1.
unfoldable pub read_lines : ℕ → List Line → ℕ → (ℕ → ℕ) → Outcome (Option (ℕ → ℕ))
unfolding shifted
read_lines n [] line_count table = done (some table)
read_lines n (l ∷ ls) line_count table =
    if not (ltb line_count n)
    then done none
    else (shifted l >>= λ v. read_lines n ls (line_count + 1) (update table line_count v))

-- axiom_rt_from_file: the entries that axiom_set_routing gets.
unfoldable pub axiom_rt_from_file : ℕ → Option (List Line) → Outcome (Option (ℕ → ℕ))
axiom_rt_from_file n none = done none
axiom_rt_from_file n (some ls) = read_lines n ls 0 (λ k. 0)

-- `__builtin_ctzl` of each entry from node `nid` on, undefined for 0.
unfoldable pub write_lines : (ℕ → ℕ) → ℕ → ℕ → Outcome (List Line)
write_lines table zero nid = done []
write_lines table (suc left) nid =
    if table nid == 0
    then undefined
    else (write_lines table left (nid + 1) >>= λ ls. done (number (ctz 64 (table nid)) ∷ ls))

-- axiom_rt_to_file: what is written; none for a file that does not open.
unfoldable pub axiom_rt_to_file : ℕ → Bool → (ℕ → ℕ) → Outcome (Option (List Line))
axiom_rt_to_file n opens table =
    if not opens then done none else (write_lines table n 0 >>= λ ls. done (some ls))
