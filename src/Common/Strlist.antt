-- ===== src/Common/Strlist.antt =====
-- axiom_common_library/strlist.c: a growing array of copies of strings. An entry that was never
-- written, or is the mixed bytes of two pointers, is `garbage`; a pointer has 8 bytes. Allocation is
-- taken to succeed.
pub mod Strings
mod Tests
use axiom_evi_apps.Prelude.{
  ℕ, zero, suc, ◌+◌, ◌*◌, Bool, true, false, List, [], ◌∷◌, ◌++◌, Option, none, some, leb, ltb,
  length, set, get_or, Outcome, done, aborted, undefined, ◌>>=◌, if◌then◌else◌,
}

-- An entry: a copy of a string (its bytes), NULL, or bytes that are no pointer of the list.
pub data Entry : Type 0 where
  string : List ℕ → Entry
  null garbage : Entry

-- `s`, which may be NULL, as an entry.
abbrev pub copy : Option (List ℕ) → Entry
copy none = null
copy (some s) = string s

-- memmove (data, data + 1, n): entry j of what the array is then, for n bytes.
unfoldable pub moved : List Entry → ℕ → ℕ → Entry
moved data' n j =
    if leb (8 * (j + 1)) n
    then get_or data' (j + 1) garbage
    else if ltb (8 * j) n
    then garbage
    else get_or data' j garbage

unfoldable pub moved_from : List Entry → ℕ → ℕ → ℕ → List Entry
unfolding moved
moved_from data' n zero j = []
moved_from data' n (suc left) j = moved data' n j ∷ moved_from data' n left (j + 1)

-- _insert: the array is the list of its entries, and realloc adds one.
unfoldable pub insert : List Entry → Option (List ℕ) → Bool → List Entry
unfolding moved_from
insert data' s head =
    let grown = data' ++ garbage ∷ [] in
    if head
    then set (moved_from grown (length data') (length grown) 0) 0 (copy s)
    else set grown (length data') (copy s)

unfoldable pub sl_append : List Entry → Option (List ℕ) → List Entry
sl_append data' s = insert data' s false

unfoldable pub sl_insert : List Entry → Option (List ℕ) → List Entry
sl_insert data' s = insert data' s true

-- _insert_all, from the strings before the NULL at the end.
unfoldable pub insert_all : List Entry → List (List ℕ) → Bool → List Entry
insert_all data' [] head = data'
insert_all data' (s ∷ ss) head = insert_all (insert data' (some s) head) ss head

-- sl_free: the strings that are freed; to free what is no pointer is undefined.
unfoldable pub sl_free : List Entry → Outcome (List (List ℕ))
sl_free [] = done []
sl_free (string s ∷ es) = sl_free es >>= λ ss. done (s ∷ ss)
sl_free (null ∷ es) = sl_free es
sl_free (garbage ∷ es) = undefined
