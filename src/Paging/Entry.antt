-- ===== src/Paging/Entry.antt =====
-- `PageDirectoryEntry` of kernel/paging/paging.hpp on the entry's value, and `pageTableFlag`.
pub mod Laws
use optimist_os.Common.{
  ℕ, ◌+◌, ◌-◌, ◌^◌, bit_and, bit_or, Bool, true, false, ◌==◌, ◌!=◌, if◌then◌else◌, not64,
}

abbrev pub present : ℕ
present = 2 ^ 0

abbrev pub read_write : ℕ
read_write = 2 ^ 1

abbrev pub user_or_superuser : ℕ
user_or_superuser = 2 ^ 2

abbrev pub write_through : ℕ
write_through = 2 ^ 3

abbrev pub cache_disable : ℕ
cache_disable = 2 ^ 4

abbrev pub accessed : ℕ
accessed = 2 ^ 5

abbrev pub larger_pages : ℕ
larger_pages = 2 ^ 7

abbrev pub global : ℕ
global = 2 ^ 8

abbrev pub no_exec : ℕ
no_exec = 2 ^ 63

-- The bits of an entry that hold an address.
abbrev pub address_mask : ℕ
address_mask = 0x000ffffffffff000

unfoldable pub set_flag : ℕ → ℕ → Bool → ℕ
set_flag value flag enable =
    let cleared = bit_and value (not64 flag) in if enable then bit_or cleared flag else cleared

unfoldable pub get_flag : ℕ → ℕ → Bool
get_flag value flag = bit_and value flag != 0

unfoldable pub set_address : ℕ → ℕ → ℕ
set_address value address =
    bit_or (bit_and value (not64 address_mask)) (bit_and address address_mask)

unfoldable pub get_address : ℕ → ℕ
get_address value = if value != 0 then bit_and value address_mask else 0

unfoldable pub is_valid : ℕ → Bool
is_valid value =
    if get_flag value present then (if get_address value == 0 then false else true) else false
