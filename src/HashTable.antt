-- ===== src/HashTable.antt =====
-- kernel/paging/hashtable.hpp and hashtable.cpp: the table from the address of an allocated frame to
-- its size. An `int` is its bit pattern, below 2 ^ 32.
pub mod Laws
use optimist_os.Common.{
  ℕ, zero, suc, ◌+◌, ◌-◌, ◌*◌, ◌/◌, ◌%◌, ◌^◌, bit_xor, ◌||◌, Option, none, some, List, ◌==◌, ◌!=◌,
  ltb, if◌then◌else◌, get_or, set, u64,
}

abbrev pub table_size : ℕ
table_size = 100

-- The `int` -1.
abbrev pub minus_one : ℕ
minus_one = 2 ^ 32 - 1

pub record KeyValuePair : Type 0 where
  pub key : ℕ
  pub value : ℕ

abbrev pub HashTable : Type 0
HashTable = List KeyValuePair

abbrev pub pair : ℕ → ℕ → KeyValuePair
pair k v = record { key = k; value = v }

-- `ht->table[index]`, with a blank pair behind the end of the array.
abbrev pub entry : HashTable → ℕ → KeyValuePair
entry ht index = get_or ht index (pair 0 0)

-- `((h >> 16) ^ h) * 0x45d9f3b` on a `size_t`.
unfoldable pub mix : ℕ → ℕ
mix h = u64 (bit_xor (h / 2 ^ 16) h * 0x45d9f3b)

unfoldable pub hash : ℕ → ℕ
unfolding mix
hash key = let h = mix (mix key) in let last = bit_xor (h / 2 ^ 16) h in last % table_size

-- The loop of `insert`, with the rounds that are left.
unfoldable pub insert_loop : ℕ → ℕ → ℕ
insert_loop zero index = index
insert_loop (suc left) index = insert_loop left ((index + 1) % table_size)

unfoldable pub insert : HashTable → ℕ → ℕ → HashTable
insert ht key value = set ht (insert_loop 100 (hash key)) (pair key value)

-- The loop shared by `search` and `deleteKey`, on fuel: `none` is out of fuel, `some none` the early
-- return "Key not found", `some (some index)` the index at which the loop condition fails.
unfoldable pub probe : HashTable → ℕ → ℕ → ℕ → ℕ → ℕ → Option (Option ℕ)
probe ht key original zero index i = none
probe ht key original (suc fuel) index i =
    let next = (index + 1) % table_size in
    let rest = probe ht key original fuel next (i + 1) in
    if (entry ht index).key != key || (entry ht index).value == minus_one || ltb i 100
    then (if next == original then some none else rest)
    else some (some index)

-- The rounds that `search` and `deleteKey` are given.
abbrev pub probe_fuel : ℕ
probe_fuel = 100

-- What `search` returns for the outcome of its loop.
unfoldable pub search_result : HashTable → Option (Option ℕ) → Option ℕ
search_result ht none = none
search_result ht (some none) = some minus_one
search_result ht (some (some index)) = some (entry ht index).value

unfoldable pub search : HashTable → ℕ → Option ℕ
search ht key = search_result ht (probe ht key (hash key) probe_fuel (hash key) 0)

-- What `deleteKey` leaves for the outcome of its loop.
unfoldable pub delete_result : HashTable → Option (Option ℕ) → Option HashTable
delete_result ht none = none
delete_result ht (some none) = some ht
delete_result ht (some (some index)) =
    some (set ht index (record (entry ht index) { value = minus_one }))

unfoldable pub delete_key : HashTable → ℕ → Option HashTable
delete_key ht key = delete_result ht (probe ht key (hash key) probe_fuel (hash key) 0)
