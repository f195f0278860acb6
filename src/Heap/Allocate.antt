-- ===== src/Heap/Allocate.antt =====
-- `mallocx` and `coalesceBlocks` of kernel/memory/malloc.cpp.
use optimist_os.Common.{
  ℕ, zero, suc, ◌+◌, ◌-◌, ◌*◌, ◌/◌, ◌%◌, ◌^◌, ◌⊎◌, inl, inr, Bool, true, false, ◌&&◌, ◌||◌, ◌==◌,
  ◌!=◌, ltb, if◌then◌else◌, Option, none, some, u64,
}
use optimist_os.Kernel.Run.{M, out_of_fuel, pure, get, read_field, write_field, ◌>>=◌, ◌>>◌}
use optimist_os.Heap.{
  right_link, left_link, next_link, child_size_at, node_size_at, level_at, sizeof_head, unused,
  allocated, heap_page_size, minimum_allocation_size, maximum_coalesce_blocks, read_status,
  write_status, acquire, release, init_nodes,
}
use optimist_os.Heap.Round.{round_up_to_next_power2}

-- `node->level`, a `short`, as its bit pattern.
unfoldable pub read_level : ℕ → M ℕ
read_level node = do word ← read_field node level_at; pure (word % 2 ^ 16)

-- The loop of `coalesceBlocks` to the last of the blocks.
unfoldable pub last_node : ℕ → ℕ → M ℕ
last_node zero node = pure node
last_node (suc left) node = do next ← read_field node next_link; last_node left next

unfoldable pub coalesce_blocks : ℕ → ℕ → ℕ → M ℕ
coalesce_blocks rounds node n = do
  acquire rounds
  last ← last_node (n - 1) node
  next ← read_field last next_link
  write_field node next_link next
  write_field node node_size_at (u64 (heap_page_size * n))
  write_status node allocated
  release
  pure (u64 (node + sizeof_head))

-- Lines 63 to 70: whether the nodes behind are free.
unfoldable pub can_coalesce : ℕ → ℕ → M Bool
can_coalesce zero node = pure true
can_coalesce (suc left) node = do
  status ← read_status node
  if status == allocated
      then pure false
      else (do next ← read_field node next_link; can_coalesce left next)

-- Lines 52 to 77: `some` is what `mallocx` returns there.
unfoldable pub try_coalesce : ℕ → ℕ → ℕ → M (Option ℕ)
try_coalesce rounds size node =
    if ltb heap_page_size size
    then (do
      level ← read_level node
      status ← read_status node
      next ← read_field node next_link
      if (level == 0) && (status != allocated) && (next != 0)
          then (do
            let blocks = size / heap_page_size
            if ltb maximum_coalesce_blocks blocks then (do release; pure (some 0)) else (do
              free ← can_coalesce (blocks - 1) next
              if free
                  then (do release; block ← coalesce_blocks rounds node blocks; pure (some block))
                  else pure none))
          else pure none)
    else pure none

-- `currentNode->next` if there is one.
unfoldable pub next_or_self : ℕ → M ℕ
next_or_self node = do next ← read_field node next_link; pure (if next == 0 then node else next)

-- Lines 89 to 93.
unfoldable pub skip_allocated : ℕ → M ℕ
skip_allocated node = do
  status ← read_status node
  if status == allocated then next_or_self node else pure node

-- Lines 79 to 93: the node to look at.
unfoldable pub choose_node : ℕ → M ℕ
choose_node node = do
  left ← read_field node left_link
  if left == 0 then skip_allocated node else (do
    left_status ← read_status left
    if left_status == allocated
        then (do
          right ← read_field node right_link
          if right == 0 then pure node else (do
            right_status ← read_status right
            if right_status == unused then pure right else read_field node next_link))
        else skip_allocated node)

-- Lines 107 to 113: the node becomes the left half of itself.
unfoldable pub split_node : ℕ → M ℕ
split_node node = do
  write_field node left_link node
  child ← read_field node child_size_at
  let right = u64 (node + child)
  write_field node right_link right
  write_status node unused
  size ← read_field node node_size_at
  write_field node node_size_at (size / 2)
  half ← read_field node node_size_at
  write_field right node_size_at half
  next ← read_field node next_link
  write_field right next_link next
  read_field node left_link

-- The `while (true)` loop: `inl` is what `mallocx` returns from inside it, `inr` the node behind it.
unfoldable pub find_node : ℕ → ℕ → ℕ → ℕ → M (ℕ ⊎ ℕ)
find_node zero rounds size node = λ _. out_of_fuel
find_node (suc fuel) rounds size node = do
  returned ← try_coalesce rounds size node
  elim returned [
    | some block ↦ pure (inl block)
    | none ↦ do
      current ← choose_node node
      current_size ← read_field current node_size_at
      if current_size == size then (do release; pure (inr current)) else (do
        status ← read_status current
        if (status == allocated) || ltb current_size size
            then (do following ← next_or_self current; find_node fuel rounds size following)
            else (do half ← split_node current; find_node fuel rounds size half))
  ]

unfoldable pub block_size : ℕ → ℕ
block_size size =
    let whole = u64 (size + sizeof_head) in
    round_up_to_next_power2
      (if ltb whole minimum_allocation_size then minimum_allocation_size else whole)

unfoldable pub mallocx : ℕ → ℕ → ℕ → M ℕ
mallocx fuel rounds size = do
  acquire rounds
  s ← get
  if s.free_list == 0 then init_nodes fuel else pure tt
  t ← get
  found ← find_node fuel rounds (block_size size) t.free_list
  elim found [
    | inl block ↦ pure block
    | inr node ↦ do write_status node allocated; release; pure (u64 (node + sizeof_head))
  ]
