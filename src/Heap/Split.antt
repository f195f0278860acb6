-- ===== src/Heap/Split.antt =====
-- How `mallocx` of kernel/memory/malloc.cpp splits a page of the heap.
use optimist_os.Common.{ℕ, ◌+◌, ◌*◌, ◌/◌, ◌^◌, ◌≤◌, ◌<◌, ◌≡◌, ◌≢◌, ◌∙◌, refl, ap, arith, u64}
use optimist_os.Memory.{Memory, mmio_read32, mmio_write32, mmio_read64, mmio_write64}
use optimist_os.Memory.Laws.{
  Outside, mmio_read32-mmio_write32, mmio_write32-Outside, mmio_read64_ext, mmio_read32_frame,
  mmio_write64-Outside, mmio_read64-mmio_write64,
}
use optimist_os.Kernel.{Kernel}
use optimist_os.Kernel.Run.{ok}
use optimist_os.Heap.{
  right_link, left_link, next_link, status_at, child_size_at, node_size_at, sizeof_head, unused,
  write_status,
}
use optimist_os.Heap.Allocate.{split_node}

-- The word at `a`, of `n` bytes, is the only change.
record Wrote (m m' : Memory) (a n : ℕ) : Type 0 where
  same : (x : ℕ) → Outside a n x → m' x ≡ m x

-- What a split makes of the headers at `a` and `b`, for the link `b` to the right half, the size `half` of each half
-- and the following node `next`.
pub record IsSplit (a b half next : ℕ) (m m' : Memory) : Type 0 where
  pub left : mmio_read64 m' (a + left_link) ≡ a
  pub right : mmio_read64 m' (a + right_link) ≡ b
  pub status : mmio_read32 m' (a + status_at) ≡ unused
  pub size : mmio_read64 m' (a + node_size_at) ≡ half
  pub child : mmio_read64 m' (a + child_size_at) ≡ mmio_read64 m (a + child_size_at)
  pub next_a : mmio_read64 m' (a + next_link) ≡ next
  pub right_size : mmio_read64 m' (b + node_size_at) ≡ half
  pub right_next : mmio_read64 m' (b + next_link) ≡ next
  pub same : (x : ℕ) → Outside a sizeof_head x → Outside b sizeof_head x → m' x ≡ m x

module _ {a b half next : ℕ} {m0 m1 m2 m3 m4 m5 m6 : Memory} (apart : a + sizeof_head ≤ b)
    (w1 : Wrote m0 m1 (a + left_link) 8) (w2 : Wrote m1 m2 (a + right_link) 8)
    (w3 : Wrote m2 m3 (a + status_at) 4) (w4 : Wrote m3 m4 (a + node_size_at) 8)
    (w5 : Wrote m4 m5 (b + node_size_at) 8) (w6 : Wrote m5 m6 (b + next_link) 8)
    (v1 : mmio_read64 m1 (a + left_link) ≡ a) (v2 : mmio_read64 m2 (a + right_link) ≡ b)
    (v3 : mmio_read32 m3 (a + status_at) ≡ unused) (v4 : mmio_read64 m4 (a + node_size_at) ≡ half)
    (v5 : mmio_read64 m5 (b + node_size_at) ≡ half) (v6 : mmio_read64 m6 (b + next_link) ≡ next)
    (n0 : mmio_read64 m0 (a + next_link) ≡ next) where
  -- What the writes from the fourth on leave alone.
  after_4 : (x : ℕ) → x < a + node_size_at → m6 x ≡ m3 x
  after_4 x lt = w6.same x (omega arith) ∙ w5.same x (omega arith) ∙ w4.same x (omega arith)

  steps-IsSplit : IsSplit a b half next m0 m6
  steps-IsSplit = record {
    left =
        mmio_read64_ext m1 m6 (a + left_link)
          (λ x lo hi. after_4 x (omega arith) ∙ w3.same x (omega arith) ∙ w2.same x (omega arith))
        ∙ v1;
    right =
        mmio_read64_ext m2 m6 (a + right_link)
          (λ x lo hi. after_4 x (omega arith) ∙ w3.same x (omega arith))
        ∙ v2;
    status =
        mmio_read32_frame m3 m6 (a + status_at) (after_4 (a + status_at) (omega arith))
          (after_4 (a + status_at + 1) (omega arith)) (after_4 (a + status_at + 2) (omega arith))
          (after_4 (a + status_at + 3) (omega arith))
        ∙ v3;
    size =
        mmio_read64_ext m4 m6 (a + node_size_at)
          (λ x lo hi. w6.same x (omega arith) ∙ w5.same x (omega arith))
        ∙ v4;
    child = mmio_read64_ext m0 m6 (a + child_size_at) (λ x lo hi.
        after_4 x (omega arith)
        ∙ w3.same x (omega arith)
        ∙ w2.same x (omega arith)
        ∙ w1.same x (omega arith));
    next_a =
        mmio_read64_ext m0 m6 (a + next_link) (λ x lo hi.
          after_4 x (omega arith)
          ∙ w3.same x (omega arith)
          ∙ w2.same x (omega arith)
          ∙ w1.same x (omega arith))
        ∙ n0;
    right_size = mmio_read64_ext m5 m6 (b + node_size_at) (λ x lo hi. w6.same x (omega arith)) ∙ v5;
    right_next = v6;
    same = λ x oa ob.
        w6.same x (omega arith)
        ∙ w5.same x (omega arith)
        ∙ w4.same x (omega arith)
        ∙ w3.same x (omega arith)
        ∙ w2.same x (omega arith)
        ∙ w1.same x (omega arith);
  }

wrote64 : (m : Memory) (a v : ℕ) → Wrote m (mmio_write64 m a v) a 8
wrote64 m a v = record { same = mmio_write64-Outside m a v }

wrote32 : (m : Memory) (a v : ℕ) → Wrote m (mmio_write32 m a v) a 4
wrote32 m a v = record { same = mmio_write32-Outside m a v }

-- The memory in the steps of a split, for the link `b` to the right half.
module _ (m : Memory) (a b : ℕ) where
  abbrev m1 : Memory
  m1 = mmio_write64 m (a + left_link) a

  abbrev m2 : Memory
  m2 = mmio_write64 m1 (a + right_link) b

  abbrev m3 : Memory
  m3 = mmio_write32 m2 (a + status_at) unused

  abbrev m4 : Memory
  m4 = mmio_write64 m3 (a + node_size_at) (mmio_read64 m3 (a + node_size_at) / 2)

  abbrev m5 : Memory
  m5 = mmio_write64 m4 (b + node_size_at) (mmio_read64 m4 (a + node_size_at))

  abbrev m6 : Memory
  m6 = mmio_write64 m5 (b + next_link) (mmio_read64 m5 (a + next_link))

  split_node-run :
      (s : Kernel)
      → s.mem ≡ m
      → a ≢ 0
      → b ≢ 0
      → u64 (a + mmio_read64 m1 (a + child_size_at)) ≡ b
      → split_node a s ≡ ok (mmio_read64 m6 (a + left_link)) (record s { mem = m6 })
  unfolding split_node write_status
  split_node-run s here na nb at = ground arith

module _ (m : Memory) (a b : ℕ) {child half next : ℕ} (apart : a + sizeof_head ≤ b)
    (top : b + sizeof_head ≤ 2 ^ 64) (at : a + child ≡ b)
    (c : mmio_read64 m (a + child_size_at) ≡ child)
    (two : mmio_read64 m (a + node_size_at) ≡ 2 * half) (small : half < 2 ^ 63)
    (n : mmio_read64 m (a + next_link) ≡ next) (word : next < 2 ^ 64) where
  m1-child : mmio_read64 (m1 m a b) (a + child_size_at) ≡ child
  m1-child =
      mmio_read64_ext m (m1 m a b) (a + child_size_at)
        (λ x lo hi. mmio_write64-Outside m (a + left_link) a x (omega arith))
      ∙ c

  m3-same : (x : ℕ) → a + child_size_at ≤ x → m3 m a b x ≡ m x
  m3-same x lo =
      mmio_write32-Outside (m2 m a b) (a + status_at) unused x (omega arith)
      ∙ mmio_write64-Outside (m1 m a b) (a + right_link) b x (omega arith)
      ∙ mmio_write64-Outside m (a + left_link) a x (omega arith)

  m3-size : mmio_read64 (m3 m a b) (a + node_size_at) ≡ 2 * half
  m3-size =
      mmio_read64_ext m (m3 m a b) (a + node_size_at) (λ x lo hi. m3-same x (omega arith)) ∙ two

  m4-size : mmio_read64 (m4 m a b) (a + node_size_at) ≡ half
  m4-size =
      mmio_read64-mmio_write64 (m3 m a b) (a + node_size_at)
        (mmio_read64 (m3 m a b) (a + node_size_at) / 2)
      ∙ omega (arith, m3-size)

  m5-next : mmio_read64 (m5 m a b) (a + next_link) ≡ next
  m5-next =
      mmio_read64_ext m (m5 m a b) (a + next_link) (λ x lo hi.
        mmio_write64-Outside (m4 m a b) (b + node_size_at)
          (mmio_read64 (m4 m a b) (a + node_size_at)) x (omega arith)
        ∙ mmio_write64-Outside (m3 m a b) (a + node_size_at)
            (mmio_read64 (m3 m a b) (a + node_size_at) / 2) x (omega arith)
        ∙ mmio_write32-Outside (m2 m a b) (a + status_at) unused x (omega arith)
        ∙ mmio_write64-Outside (m1 m a b) (a + right_link) b x (omega arith)
        ∙ mmio_write64-Outside m (a + left_link) a x (omega arith))
      ∙ n

  m6-IsSplit : IsSplit a b half next m (m6 m a b)
  m6-IsSplit =
      steps-IsSplit apart (wrote64 m (a + left_link) a) (wrote64 (m1 m a b) (a + right_link) b)
        (wrote32 (m2 m a b) (a + status_at) unused)
        (wrote64 (m3 m a b) (a + node_size_at) (mmio_read64 (m3 m a b) (a + node_size_at) / 2))
        (wrote64 (m4 m a b) (b + node_size_at) (mmio_read64 (m4 m a b) (a + node_size_at)))
        (wrote64 (m5 m a b) (b + next_link) (mmio_read64 (m5 m a b) (a + next_link)))
        (mmio_read64-mmio_write64 m (a + left_link) a ∙ omega arith)
        (mmio_read64-mmio_write64 (m1 m a b) (a + right_link) b ∙ omega arith)
        (mmio_read32-mmio_write32 (m2 m a b) (a + status_at) unused ∙ omega arith) m4-size
        (mmio_read64-mmio_write64 (m4 m a b) (b + node_size_at)
            (mmio_read64 (m4 m a b) (a + node_size_at))
          ∙ omega (arith, m4-size))
        (mmio_read64-mmio_write64 (m5 m a b) (b + next_link)
            (mmio_read64 (m5 m a b) (a + next_link))
          ∙ omega (arith, m5-next))
        n

  -- A split ends in the node itself, with the headers of both halves written.
  pub split_node-IsSplit :
      (s : Kernel)
      → s.mem ≡ m
      → a ≢ 0
      → (t : Kernel) × (split_node a s ≡ ok a t)
        × (t ≡ record s { mem = t.mem })
        × IsSplit a b half next m t.mem
  split_node-IsSplit s here na =
      let done = m6-IsSplit in
      (
        record s { mem = m6 m a b },
        split_node-run m a b s here na (omega arith) (omega (arith, m1-child))
            ∙ ap (λ (p : ℕ). ok p (record s { mem = m6 m a b })) done.left,
        refl,
        done,
      )
