-- ===== src/Checks/Basics.antt =====
-- kernel/lib/memory.cpp, kernel/lib/string.cpp and kernel/paging/hashtable.cpp at concrete inputs.
use optimist_os.Common.{
  ℕ, ◌+◌, ◌%◌, ◌^◌, ◌<◌, ◌≡◌, inl, refl, arith, some, ◌==◌, if◌then◌else◌, length, replicate,
}
use optimist_os.Memory.{Memory, mmio_read64, mmio_write64}
use optimist_os.Memory.Laws.{mmio_read64-mmio_write64, Outside}
use optimist_os.Strings.{memoryset, memorycpy}
use optimist_os.Strings.Laws.{memoryset_lem, memorycpy_lem, within}
use optimist_os.HashTable.{
  HashTable, table_size, minus_one, pair, entry, hash, insert, search, delete_key,
}
use optimist_os.HashTable.Laws.{insert_lem, search_lem, delete_key_lem}

abbrev counting : Memory
counting x = x % 2 ^ 8

mmio_read64-mmio_write64_example :
    mmio_read64 (mmio_write64 counting 100 0x123456789abcdef0) 100 ≡ 0x123456789abcdef0 % 2 ^ 64
mmio_read64-mmio_write64_example = mmio_read64-mmio_write64 counting 100 0x123456789abcdef0

memoryset_lem_example :
    memoryset 16 7 4 counting 18 ≡ (if within 16 4 18 then 7 % 2 ^ 8 else counting 18)
memoryset_lem_example = memoryset_lem 16 7 4 counting 18

memorycpy_lem_example :
    ((k : ℕ) → k < 4 → memorycpy 10 12 4 counting (10 + k) ≡ counting (12 + k))
    × ((x : ℕ) → Outside 10 4 x → memorycpy 10 12 4 counting x ≡ counting x)
memorycpy_lem_example = memorycpy_lem 10 12 4 counting (λ x. omega arith) (inl (omega arith))

abbrev blank : HashTable
blank = replicate table_size (pair 0 0)

insert_lem_example :
    (length (insert blank 4096 8192) ≡ table_size)
    × ((j : ℕ)
        → entry (insert blank 4096 8192) j
          ≡ (if j == hash 4096 then pair 4096 8192 else entry blank j))
insert_lem_example = insert_lem blank 4096 8192 refl

search_lem_example :
    (search blank 4096 ≡ some minus_one) × (search (insert blank 4096 8192) 4096 ≡ some minus_one)
search_lem_example = search_lem blank 4096 8192

delete_key_lem_example : delete_key (insert blank 4096 8192) 4096 ≡ some (insert blank 4096 8192)
delete_key_lem_example = delete_key_lem (insert blank 4096 8192) 4096
