-- ===== src/HashTable/Laws.antt =====
-- What the operations of kernel/paging/hashtable.cpp do on every table and key.
use optimist_os.Common.{
  ℕ, zero, suc, ◌+◌, ◌%◌, ◌<◌, ◌≡◌, refl, ◌||◌, Bool, true, none, some, arith, ◌==◌, if◌then◌else◌,
  length, length-set, get_or-set_self, get_or-set_ne, Bool-cases, inl, inr,
}
use optimist_os.HashTable.{
  table_size, minus_one, HashTable, pair, entry, hash, insert_loop, insert, probe, probe_fuel,
  search_result, search, delete_result, delete_key,
}

-- The hash of every key is an index of the table.
pub hash-lt : (key : ℕ) → hash key < table_size
unfolding hash
hash-lt key = omega arith

insert_loop_lem : (left index : ℕ) → index < 100 → insert_loop left index ≡ (index + left) % 100
unfolding insert_loop
insert_loop_lem zero index h = omega arith
insert_loop_lem (suc left) index h =
    omega (arith, insert_loop_lem left ((index + 1) % 100) (omega arith))

-- The hundred steps of the probing loop lead back to the hash of the key.
insert_loop-hash : (key : ℕ) → insert_loop 100 (hash key) ≡ hash key
insert_loop-hash key = omega (arith, insert_loop_lem 100 (hash key) (hash-lt key), hash-lt key)

-- On a table of a hundred pairs, `insert` keeps the table's size, stores the pair at the hash of
-- its key whatever stood there, and changes no other entry.
pub insert_lem :
    (ht : HashTable) (key value : ℕ)
    → length ht ≡ table_size
    → (length (insert ht key value) ≡ table_size)
      × ((j : ℕ)
          → entry (insert ht key value) j ≡ (if j == hash key then pair key value else entry ht j))
unfolding insert
insert_lem ht key value len = (
  omega (arith, length-set ht (insert_loop 100 (hash key)) (pair key value)),
  λ j. rw (insert_loop-hash key) (elim (Bool-cases (j == hash key)) [
    | inl here ↦
        let e : j ≡ hash key = ground arith in
        rw (
          here,
          e,
          get_or-set_self ht (hash key) (pair key value) (pair 0 0) (omega (arith, hash-lt key)),
        )
    | inr there ↦
        rw (there, get_or-set_ne ht (hash key) j (pair key value) (pair 0 0) (ground arith))
  ]),
)

or-true : (a b : Bool) → (a || b || true) ≡ true
or-true a b = ground arith

-- One round of the loop while its counter is below 100.
probe_step :
    (ht : HashTable) (key original fuel index i : ℕ)
    → i < 100
    → probe ht key original (suc fuel) index i ≡ (
        if (index + 1) % 100 == original
        then some none
        else probe ht key original fuel ((index + 1) % 100) (i + 1))
unfolding probe
probe_step ht key original fuel index i h = ground arith

-- With as many rounds as the counter is below 100, the loop comes round to its start.
probe_wraps :
    (ht : HashTable) (key original : ℕ)
    → original < 100
    → (left index i : ℕ) → i + left ≡ 99
    → index ≡ (original + i) % 100
    → probe ht key original (suc left) index i ≡ some none
probe_wraps ht key original lt zero index i e at =
    rw (probe_step ht key original zero index i (omega arith)) (ground arith)
probe_wraps ht key original lt (suc left) index i e at =
    rw (probe_step ht key original (suc left) index i (omega arith)) (
      ground (
        arith,
        probe_wraps ht key original lt left ((index + 1) % 100) (i + 1) (omega arith) (omega arith),
      ))

-- The loop of `search` and `deleteKey` ends within 100 rounds, and always by its early return: its
-- condition holds while the counter is below 100.
pub probe_lem :
    (ht : HashTable) (key : ℕ) → probe ht key (hash key) probe_fuel (hash key) 0 ≡ some none
probe_lem ht key =
    probe_wraps ht key (hash key) (hash-lt key) 99 (hash key) 0 refl (omega (arith, hash-lt key))

-- `search` ends and returns -1 for every table and every key, also for a key that `insert` has just
-- stored.
pub search_lem :
    (ht : HashTable) (key value : ℕ)
    → (search ht key ≡ some minus_one) × (search (insert ht key value) key ≡ some minus_one)
unfolding search search_result
search_lem ht key value = (rw (probe_lem ht key), rw (probe_lem (insert ht key value) key))

-- `deleteKey` ends and leaves every table as it was, so no entry is ever marked as deleted.
pub delete_key_lem : (ht : HashTable) (key : ℕ) → delete_key ht key ≡ some ht
unfolding delete_key delete_result
delete_key_lem ht key = rw (probe_lem ht key)
