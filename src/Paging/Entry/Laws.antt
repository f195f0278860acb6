-- ===== src/Paging/Entry/Laws.antt =====
-- The fields of a page table entry of kernel/paging/paging.hpp do not disturb one another.
use optimist_os.Common.{
  ℕ, ◌+◌, ◌-◌, ◌*◌, ◌/◌, ◌%◌, ◌^◌, ◌<◌, ◌≡◌, ◌∙◌, arith, bit_and, bit_or, true, false, not64, ap,
  ap₂, sym,
}
use optimist_os.Common.Bits.{
  zero-bit_or, zero-bit_and, bit_and-zero, bit_and_split, bit_and_ones, clear-set, set-get,
  clear-get, set-other, clear-other, and-or_distrib, and_idem, and-other, bit_or-lt, bit_and-le,
}
use optimist_os.Paging.Entry.{address_mask, set_flag, set_address, get_address}

abbrev pub IsWord : ℕ → Type 0
IsWord v = v < 2 ^ 64

-- What the mask keeps: the bits 12 to 51.
pub bit_and-address_mask :
    (v : ℕ) → IsWord v → bit_and v address_mask ≡ v / 2 ^ 12 % 2 ^ 40 * 2 ^ 12
bit_and-address_mask v h =
    ap (λ (t : ℕ). bit_and t address_mask) parts
    ∙ bit_and_split 52 (v / 2 ^ 52) (v % 2 ^ 52) 0 address_mask (omega arith) (omega arith)
    ∙ omega (arith, bit_and-zero (v / 2 ^ 52), low)
  where
    parts : v ≡ v / 2 ^ 52 * 2 ^ 52 + v % 2 ^ 52
    parts = omega arith

    low : bit_and (v % 2 ^ 52) address_mask ≡ v / 2 ^ 12 % 2 ^ 40 * 2 ^ 12
    low =
        ap (λ (t : ℕ). bit_and t address_mask) split
        ∙ bit_and_split 12 (v / 2 ^ 12 % 2 ^ 40) (v % 2 ^ 12) (2 ^ 40 - 1) 0 (omega arith)
            (omega arith)
        ∙ omega
            (arith, bit_and-zero (v % 2 ^ 12), bit_and_ones 40 (v / 2 ^ 12 % 2 ^ 40) (omega arith))
      where
        split : v % 2 ^ 52 ≡ v / 2 ^ 12 % 2 ^ 40 * 2 ^ 12 + v % 2 ^ 12
        split = omega arith

pub get_address-eq : (v : ℕ) → get_address v ≡ bit_and v address_mask
unfolding get_address
get_address-eq v = ground (arith, zero-bit_and address_mask)

pub set_flag-true : (v flag : ℕ) → IsWord v → IsWord flag → set_flag v flag true ≡ bit_or v flag
unfolding set_flag
set_flag-true v flag hv hf = clear-set 64 v flag hv hf

-- On 64-bit values, `setFlag(flag, true)` makes `getFlag` true of every bit of the flag,
-- `setFlag(flag, false)` of none, and both leave the bits of every disjoint mask as they were.
pub set_flag_lem :
    (v flag mask : ℕ)
    → IsWord v
    → IsWord flag
    → IsWord mask
    → bit_and flag mask ≡ 0
    → (bit_and (set_flag v flag true) flag ≡ flag)
      × (bit_and (set_flag v flag false) flag ≡ 0)
      × (bit_and (set_flag v flag true) mask ≡ bit_and v mask)
      × (bit_and (set_flag v flag false) mask ≡ bit_and v mask)
unfolding set_flag
set_flag_lem v flag mask hv hf hm apart = (
  set-get 64 (bit_and v (not64 flag)) flag hf,
  clear-get 64 v flag hf,
  set-other 64 (bit_and v (not64 flag)) flag mask hm apart ∙ clear-other 64 v flag mask hf hm apart,
  clear-other 64 v flag mask hf hm apart,
)

aligned-mask : (a : ℕ) → a < 2 ^ 52 → a % 2 ^ 12 ≡ 0 → bit_and a address_mask ≡ a
aligned-mask a h al = omega (arith, bit_and-address_mask a (omega arith))

-- `setAddress` makes `getAddress` return the bits 12 to 51 of the address, which is the whole address if
-- that is page aligned and below 2 ^ 52, and leaves every bit outside of the address field as it was.
pub set_address_lem :
    (v address mask : ℕ)
    → IsWord v
    → IsWord address
    → IsWord mask
    → bit_and address_mask mask ≡ 0
    → (get_address (set_address v address) ≡ address / 2 ^ 12 % 2 ^ 40 * 2 ^ 12)
      × (address < 2 ^ 52 → address % 2 ^ 12 ≡ 0 → get_address (set_address v address) ≡ address)
      × (bit_and (set_address v address) mask ≡ bit_and v mask)
unfolding set_address
set_address_lem v address mask hv ha hm apart = (
  field ∙ bit_and-address_mask address ha,
  λ h al. field ∙ aligned-mask address h al,
  set-other 64 (bit_and v (not64 address_mask)) (bit_and address address_mask) mask hm
        (and-other 64 address address_mask mask hm apart)
      ∙ clear-other 64 v address_mask mask (omega arith) hm apart,
)
  where
    field :
        get_address (bit_or (bit_and v (not64 address_mask)) (bit_and address address_mask))
        ≡ bit_and address address_mask
    field =
        get_address-eq (bit_or (bit_and v (not64 address_mask)) (bit_and address address_mask))
        ∙ and-or_distrib 64 (bit_and v (not64 address_mask)) (bit_and address address_mask)
            address_mask (omega arith)
        ∙ ap₂ bit_or (clear-get 64 v address_mask (omega arith))
            (and_idem 64 address address_mask (omega arith))
        ∙ zero-bit_or (bit_and address address_mask)

pub set_address-IsWord :
    (v address : ℕ) → IsWord v → IsWord address → IsWord (set_address v address)
unfolding set_address
set_address-IsWord v address hv ha =
    bit_or-lt 64 (bit_and v (not64 address_mask)) (bit_and address address_mask)
      (omega (arith, bit_and-le 64 v (not64 address_mask) hv))
      (omega (arith, bit_and-le 64 address address_mask ha))

set_flag-IsWord : (v flag : ℕ) → IsWord v → IsWord flag → IsWord (set_flag v flag true)
set_flag-IsWord v flag hv hf = rw (set_flag-true v flag hv hf) (bit_or-lt 64 v flag hv hf)

-- The value that `map` and `getNextLevelPointer` write: the address and then flags.
pub map_entry_lem :
    (v address flags : ℕ)
    → IsWord v
    → IsWord flags
    → bit_and flags address_mask ≡ 0
    → address < 2 ^ 52
    → address % 2 ^ 12 ≡ 0
    → let e = set_flag (set_address v address) flags true in
      (get_address e ≡ address) × (bit_and e flags ≡ flags) × IsWord e
map_entry_lem v address flags hv hf apart ha al =
    let w : IsWord (set_address v address) = set_address-IsWord v address hv (omega arith) in
    let s = set_flag_lem (set_address v address) flags address_mask w hf (omega arith) apart in
    (
      get_address-eq (set_flag (set_address v address) flags true)
          ∙ s.2
          ∙ sym (get_address-eq (set_address v address))
          ∙ (set_address_lem v address 0 hv (omega arith) (omega arith)
                (bit_and-zero address_mask)).1
              ha al,
      s.0,
      set_flag-IsWord (set_address v address) flags w hf,
    )
