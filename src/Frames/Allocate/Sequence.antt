-- ===== src/Frames/Allocate/Sequence.antt =====
-- Calls of `allocateFrame` of kernel/paging/pageFrameAllocator.cpp one behind the other.
use optimist_os.Common.{ℕ, ◌+◌, ◌-◌, ◌^◌, ◌≤◌, ◌<◌, ◌≡◌, refl, arith, List, [], ◌∷◌}
use optimist_os.Kernel.{Kernel}
use optimist_os.Kernel.Run.{M, ok, pure, ◌>>=◌}
use optimist_os.Frames.Round.{page_size, round_up_to_page_boundary}
use optimist_os.Frames.Allocate.{allocate_frame}
use optimist_os.Frames.Allocate.Bump.{IsBump}
use optimist_os.Frames.Allocate.Gives.{allocate_frame_lem}

-- A caller that asks for one frame after the other.
unfoldable pub allocate_all : ℕ → List ℕ → M (List ℕ)
allocate_all fuel [] = pure []
allocate_all fuel (r ∷ rs) = do
  frame ← allocate_frame fuel r
  frames ← allocate_all fuel rs
  pure (frame ∷ frames)

-- The bytes that the requests take, each rounded up.
abbrev pub total : List ℕ → ℕ
total [] = 0
total (r ∷ rs) = round_up_to_page_boundary r + total rs

-- Frames from `first` on, each of them where the one before it ends.
abbrev pub frames_from : ℕ → List ℕ → List ℕ
frames_from first [] = []
frames_from first (r ∷ rs) = first ∷ frames_from (first + round_up_to_page_boundary r) rs

abbrev pub AreRequests : List ℕ → Type 0
AreRequests [] = Unit
AreRequests (r ∷ rs) = (0 < r) × (r + page_size ≤ 2 ^ 64) × AreRequests rs

-- With one free block, and requests of which none is 0 and each rounds up within 64 bits: as long
-- as they fit the free memory together, every call succeeds, and the frames lie one behind the
-- other in the order of the calls, each as long as its request rounded up, so no two of them
-- overlap.
pub allocate_all_lem :
    {limit : ℕ} (fuel : ℕ) (requests : List ℕ) {s : Kernel}
    → IsBump limit s
    → AreRequests requests
    → total requests ≤ s.global_boot_info.memory.free_mem_size
    → (t : Kernel) × (allocate_all fuel requests s
        ≡ ok (frames_from (s.head - s.global_boot_info.memory.hhdm_offset) requests) t)
      × IsBump limit t
unfolding allocate_all
allocate_all_lem fuel [] {s} v ok_all fits = (s, refl, v)
allocate_all_lem fuel (r ∷ rs) {s} v are fits =
    let (t, run, gives) = allocate_frame_lem fuel r v are.0 are.1 (omega arith) in
    let (u, rest, w) = allocate_all_lem fuel rs gives.bump are.2 (omega (arith, gives.free)) in
    let next : t.head - t.global_boot_info.memory.hhdm_offset
        ≡ s.head - s.global_boot_info.memory.hhdm_offset + round_up_to_page_boundary r =
      omega (arith, gives.head, gives.offset, v.offset) in
    (u, ground (arith, run, rest, next), w)
