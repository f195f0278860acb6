-- ===== src/Heap/Halves.antt =====
-- `mallocx` of kernel/memory/malloc.cpp where the first page of the heap is longer than the block.
use optimist_os.Common.{
  ℕ, zero, suc, ◌+◌, ◌-◌, ◌*◌, ◌^◌, ◌≤◌, ◌<◌, ◌≡◌, ◌≢◌, ◌∙◌, ◌⊎◌, inl, inr, refl, ap, arith, u64,
}
use optimist_os.Memory.{Memory, mmio_read32, mmio_write32, mmio_read64}
use optimist_os.Memory.Laws.{
  Outside, mmio_read32-mmio_write32, mmio_write32-Outside, mmio_read64_ext,
}
use optimist_os.Lock.{unlock}
use optimist_os.Kernel.{Kernel}
use optimist_os.Kernel.Run.{ok}
use optimist_os.Heap.{
  right_link, left_link, next_link, status_at, child_size_at, node_size_at, sizeof_head, unused,
  allocated, heap_page_size, release, read_status, write_status,
}
use optimist_os.Heap.Allocate.{
  choose_node, skip_allocated, try_coalesce, split_node, find_node, block_size, mallocx,
}
use optimist_os.Heap.Mutex.{acquire-free}
use optimist_os.Heap.Split.{IsSplit, split_node-IsSplit}

-- `p` doubled `j` times.
abbrev pub doubled : ℕ → ℕ → ℕ
doubled zero p = p
doubled (suc j) p = 2 * doubled j p

doubled-ge : (j p : ℕ) → p ≤ doubled j p
doubled-ge zero p = omega arith
doubled-ge (suc j) p = omega (arith, doubled-ge j p)

-- A node that is free and of the given size.
record IsFree (a size next : ℕ) (m : Memory) : Type 0 where
  left : (mmio_read64 m (a + left_link) ≡ 0) ⊎ (mmio_read64 m (a + left_link) ≡ a)
  status : mmio_read32 m (a + status_at) ≡ unused
  size_is : mmio_read64 m (a + node_size_at) ≡ size
  child : mmio_read64 m (a + child_size_at) ≡ 2048
  following : mmio_read64 m (a + next_link) ≡ next

module _ {a size next : ℕ} (s : Kernel) (f : IsFree a size next s.mem) (fuel rounds p : ℕ)
    (ne : a ≢ 0) (small : p ≤ heap_page_size) where
  choose_node-free : choose_node a s ≡ ok a s
  unfolding choose_node skip_allocated read_status
  choose_node-free = elim f.left [ inl e ↦ ground arith | inr e ↦ ground arith ]

  -- A longer node is split, and the loop goes on at the node.
  find_node-longer :
      {t : Kernel}
      → p < size
      → split_node a s ≡ ok a t
      → find_node (suc fuel) rounds p a s ≡ find_node fuel rounds p a t
  unfolding find_node try_coalesce read_status
  find_node-longer {t} lt run = ground (arith, choose_node-free)

  find_node-fits :
      p ≡ size → find_node (suc fuel) rounds p a s ≡ ok (inr a) (record s { mutex = 0 })
  unfolding find_node try_coalesce release unlock
  find_node-fits e = ground (arith, choose_node-free)

IsSplit-IsFree :
    {a b half next : ℕ} {m m' : Memory}
    → IsSplit a b half next m m'
    → mmio_read64 m (a + child_size_at) ≡ 2048
    → IsFree a half next m'
IsSplit-IsFree d c = record {
  left = inr d.left;
  status = d.status;
  size_is = d.size;
  child = d.child ∙ c;
  following = d.next_a;
}

IsSplit-trans :
    {a b c p next : ℕ} {m m' m'' : Memory}
    → IsSplit a b c next m m'
    → IsSplit a b p next m' m''
    → IsSplit a b p next m m''
IsSplit-trans d e = record {
  left = e.left;
  right = e.right;
  status = e.status;
  size = e.size;
  child = e.child ∙ d.child;
  next_a = e.next_a;
  right_size = e.right_size;
  right_next = e.right_next;
  same = λ x oa ob. e.same x oa ob ∙ d.same x oa ob;
}

-- The node is split until it has the size, always with the same right half.
find_node-halves :
    {a p next : ℕ} (j fuel rounds : ℕ) (s : Kernel)
    → IsFree a (doubled (suc j) p) next s.mem
    → a ≢ 0
    → a + heap_page_size ≤ 2 ^ 64
    → next < 2 ^ 64
    → 0 < p
    → doubled (suc j) p ≤ heap_page_size
    → suc j < fuel
    → (t : Kernel) × (find_node fuel rounds p a s ≡ ok (inr a) (record t { mutex = 0 }))
      × (t ≡ record s { mem = t.mem })
      × IsSplit a (a + 2048) p next s.mem t.mem
find_node-halves j zero rounds s f ne top word pos small lt = absurd (omega arith)
find_node-halves {a} {p} {next} zero (suc fuel) rounds s f ne top word pos small lt =
    let (t, run, only, split) =
      split_node-IsSplit s.mem a (a + 2048) (omega arith) (omega arith) refl f.child f.size_is
        (omega arith) f.following word s refl ne in
    let longer = find_node-longer s f fuel rounds p ne (omega arith) (omega arith) run in
    (
      t,
      longer
          ∙ ap (λ (k : ℕ). find_node k rounds p a t) (omega arith)
          ∙ find_node-fits t (IsSplit-IsFree split f.child) (fuel - 1) rounds p ne (omega arith)
              refl,
      only,
      split,
    )
find_node-halves {a} {p} {next} (suc j) (suc fuel) rounds s f ne top word pos small lt =
    let (t, run, only, split) =
      split_node-IsSplit s.mem a (a + 2048) {half = doubled (suc j) p} (omega arith) (omega arith)
        refl f.child f.size_is (omega arith) f.following word s refl ne in
    let longer =
      find_node-longer s f fuel rounds p ne (omega (arith, doubled-ge j p))
        (omega (arith, doubled-ge j p)) run in
    let (u, rest, only', split') =
      find_node-halves j fuel rounds t (IsSplit-IsFree split f.child) ne top word pos (omega arith)
        (omega arith) in
    (
      u,
      longer ∙ rest,
      only' ∙ ap (λ (k : Kernel). record k { mem = u.mem }) only,
      IsSplit-trans split split',
    )

doubled-pos : (j p : ℕ) → 0 < doubled j p → 0 < p
doubled-pos zero p h = h
doubled-pos (suc j) p h = doubled-pos j p (omega arith)

-- The node that was found is marked.
mallocx-found :
    (fuel rounds size : ℕ) (s t : Kernel)
    → s.free_list ≢ 0
    → s.mutex ≡ 0
    → find_node fuel (suc rounds) (block_size size) s.free_list (record s { mutex = 1 })
      ≡ ok (inr s.free_list) (record t { mutex = 0 })
    → mallocx fuel (suc rounds) size s
      ≡ ok
          (u64 (s.free_list + sizeof_head))
          (record t { mem = mmio_write32 t.mem (s.free_list + status_at) allocated; mutex = 0 })
unfolding mallocx write_status release unlock
mallocx-found fuel rounds size s t ne free found = ground (arith, acquire-free rounds s free, found)

-- When the first node of the list is a whole and unused page, longer than the block, `mallocx` halves it until
-- it has the size of the block, marks it as allocated, returns the bytes behind its header and frees the mutex.
-- The right half begins at 2048 whatever the size is, and in the end it is as short as the block: for a
-- block below 2048 bytes no node holds the bytes between the two, nor those behind the right half, which is
-- followed by the node that followed the page. No byte outside of the two headers changes.
pub mallocx_halves :
    (j fuel rounds size : ℕ) (s : Kernel)
    → let node = s.free_list in
      let right = node + 2048 in
      let p = block_size size in
      node ≢ 0
      → s.mutex ≡ 0
      → mmio_read64 s.mem (node + left_link) ≡ 0
      → mmio_read32 s.mem (node + status_at) ≡ unused
      → mmio_read64 s.mem (node + node_size_at) ≡ heap_page_size
      → mmio_read64 s.mem (node + child_size_at) ≡ 2048
      → mmio_read64 s.mem (node + next_link) < 2 ^ 64
      → node + heap_page_size ≤ 2 ^ 64
      → heap_page_size ≡ doubled (suc j) p
      → suc j < fuel
      → (t : Kernel) × (mallocx fuel (suc rounds) size s ≡ ok (u64 (node + sizeof_head)) t)
        × (mmio_read32 t.mem (node + status_at) ≡ allocated)
        × (mmio_read64 t.mem (node + node_size_at) ≡ p)
        × (mmio_read64 t.mem (node + right_link) ≡ right)
        × (mmio_read64 t.mem (right + node_size_at) ≡ p)
        × (mmio_read64 t.mem (right + next_link) ≡ mmio_read64 s.mem (node + next_link))
        × (t.mutex ≡ 0)
        × ((x : ℕ) → Outside node sizeof_head x → Outside right sizeof_head x → t.mem x ≡ s.mem x)
mallocx_halves j fuel rounds size s ne free left empty whole child word top page enough =
    let node : ℕ = s.free_list in
    let p : ℕ = block_size size in
    let f : IsFree node (doubled (suc j) p) (mmio_read64 s.mem (node + next_link)) s.mem = record {
      left = inl left;
      status = empty;
      size_is = whole ∙ page;
      child = child;
      following = refl;
    } in
    let (t, found, only, d) =
      find_node-halves {p = p} j fuel (suc rounds) (record s { mutex = 1 }) f ne top word
        (doubled-pos (suc j) p (omega (arith, page))) (omega (arith, page)) enough in
    let mark = λ (b : ℕ) (out : (b + 8 ≤ node + status_at) ⊎ (node + child_size_at ≤ b)).
      mmio_read64_ext t.mem (mmio_write32 t.mem (node + status_at) allocated) b
        (λ x lo hi. mmio_write32-Outside t.mem (node + status_at) allocated x (omega arith)) in
    (
      record t { mem = mmio_write32 t.mem (node + status_at) allocated; mutex = 0 },
      mallocx-found fuel rounds size s t ne free found,
      omega (arith, mmio_read32-mmio_write32 t.mem (node + status_at) allocated),
      mark (node + node_size_at) (omega arith) ∙ d.size,
      mark (node + right_link) (omega arith) ∙ d.right,
      mark (node + 2048 + node_size_at) (omega arith) ∙ d.right_size,
      mark (node + 2048 + next_link) (omega arith) ∙ d.right_next,
      refl,
      λ x on or.
          mmio_write32-Outside t.mem (node + status_at) allocated x (omega arith) ∙ d.same x on or,
    )
