-- ===== src/Paging/Walk.antt =====
-- How the processor translates an address by tables of four levels: the specification of `map` of
-- kernel/paging/paging.cpp. A table at the physical address `p` stands in memory at `p + offset`.
use optimist_os.Common.{ℕ, ◌+◌, ◌*◌, ◌/◌, ◌%◌, ◌^◌, Option, none, some, ◌==◌, if◌then◌else◌}
use optimist_os.Memory.{Memory, mmio_read64}

abbrev pub frame_of : ℕ → ℕ
frame_of entry = entry / 2 ^ 12 % 2 ^ 40 * 2 ^ 12

infixl 5 ◌>>=◌
abbrev ◌>>=◌ : Option ℕ → (ℕ → Option ℕ) → Option ℕ
none >>= k = none
some a >>= k = k a

-- The entry of a table, if its present bit is set.
abbrev pub look_up : Memory → ℕ → ℕ → ℕ → Option ℕ
look_up m offset table index =
    let entry = mmio_read64 m (table + offset + 8 * index) in
    if entry % 2 == 1 then some entry else none

-- The bit that makes an entry of level 3 or 2 a page.
abbrev pub is_page : ℕ → ℕ
is_page entry = entry / 2 ^ 7 % 2

unfoldable pub translate : Memory → ℕ → ℕ → ℕ → Option ℕ
translate m offset root v = do
  e4 ← look_up m offset root (v / 2 ^ 39 % 512)
  e3 ← look_up m offset (frame_of e4) (v / 2 ^ 30 % 512)
  if is_page e3 == 1 then some (e3 / 2 ^ 30 % 2 ^ 22 * 2 ^ 30 + v % 2 ^ 30) else do
    e2 ← look_up m offset (frame_of e3) (v / 2 ^ 21 % 512)
    if is_page e2 == 1 then some (e2 / 2 ^ 21 % 2 ^ 31 * 2 ^ 21 + v % 2 ^ 21) else do
      e1 ← look_up m offset (frame_of e2) (v / 2 ^ 12 % 512)
      some (frame_of e1 + v % 2 ^ 12)
