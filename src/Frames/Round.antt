-- ===== src/Frames/Round.antt =====
-- `roundUpToPageBoundary`, `roundDown` and `roundUp` of kernel/paging/pageFrameAllocator.cpp, on
-- `uint64_t` values.
pub mod Laws
use optimist_os.Common.{ℕ, ◌+◌, ◌-◌, ◌%◌, bit_and, ◌==◌, if◌then◌else◌, u64, sub64, not64}

abbrev pub page_size : ℕ
page_size = 4096

unfoldable pub round_up_to_page_boundary : ℕ → ℕ
round_up_to_page_boundary size =
    if size % page_size == 0
    then size
    else bit_and (sub64 (u64 (size + page_size)) 1) (not64 (page_size - 1))

unfoldable pub round_down : ℕ → ℕ → ℕ
round_down n align_to = bit_and n (not64 (sub64 align_to 1))

unfoldable pub round_up : ℕ → ℕ → ℕ
round_up n align_to = bit_and (sub64 (u64 (n + align_to)) 1) (not64 (sub64 align_to 1))
