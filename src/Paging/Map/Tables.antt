-- ===== src/Paging/Map/Tables.antt =====
-- The three tables that `virtualAddrToPTE` of kernel/paging/paging.cpp makes where none is on the way.
use optimist_os.Common.{
  ℕ, ◌+◌, ◌-◌, ◌*◌, ◌/◌, ◌%◌, ◌^◌, ◌≤◌, ◌<◌, ◌≡◌, ◌≢◌, ◌∙◌, refl, sym, ap, subst, arith,
}
use optimist_os.Memory.{mmio_read64}
use optimist_os.Memory.Laws.{Outside, mmio_read64_ext, mmio_read64-zeros}
use optimist_os.Kernel.{Kernel}
use optimist_os.Kernel.Run.{ok}
use optimist_os.Frames.FreeList.{sizeof_f_block}
use optimist_os.Paging.Map.{next_table}
use optimist_os.Paging.Map.Level.{IsTable, slot}
use optimist_os.Paging.Map.Open.{IsReady, Opens, IsTable-linked, next_table-Opens}
use optimist_os.Paging.Map.Present.{HasTables}
use optimist_os.Paging.Walk.{frame_of}

-- The root's entry for the address `v` is empty, and the frames of three tables are free.
pub record IsEmpty (offset limit v : ℕ) (s : Kernel) : Type 0 where
  pub ready : IsReady offset limit s
  pub root : s.pml4 ≢ 0
  pub below : s.pml4 + 2 ^ 12 + offset ≤ s.head
  pub empty : mmio_read64 s.mem (slot offset s.pml4 (v / 2 ^ 39 % 512)) ≡ 0
  pub enough : 3 * 0x1000 ≤ s.global_boot_info.memory.free_mem_size

-- The table that was made last is empty.
new_table-empty :
    {offset limit at : ℕ} {s t : Kernel} (index : ℕ)
    → IsReady offset limit s
    → Opens offset limit at s t
    → index < 512
    → mmio_read64 t.mem (slot offset (s.head - offset) index) ≡ 0
new_table-empty {offset} {limit} {at} {s} {t} index r o i =
    mmio_read64-zeros t.mem (slot offset (s.head - offset) index)
      (λ x lo hi. o.zero x (omega (arith, r.first)) (omega (arith, r.first)))

-- The next level below a table that was made last.
pub open_next :
    {offset limit at : ℕ} {s t : Kernel} (fuel index : ℕ)
    → IsReady offset limit s
    → Opens offset limit at s t
    → index < 512
    → 0x1000 ≤ t.global_boot_info.memory.free_mem_size
    → (u : Kernel) × (next_table fuel s.head index t ≡ ok t.head u)
      × Opens offset limit (slot offset (s.head - offset) index) t u
open_next {offset} {limit} {at} {s} {t} fuel index r o i enough =
    let here : s.head - offset + offset ≡ s.head = omega (arith, r.first) in
    let (u, run, opens) =
      next_table-Opens fuel (s.head - offset) index o.ready enough i
        (omega (arith, r.first, o.head)) (λ e. r.direct.nonzero (omega arith))
        (new_table-empty index r o i) in
    (u, ap (λ (a : ℕ). next_table fuel a index t) (omega arith) ∙ run, opens)

-- The first table is opened while the root is held at its virtual address.
unfoldable pub with_root : ℕ → Kernel → Kernel
with_root root s = record s { pml4 = root }

pub with_root-IsReady :
    {offset limit : ℕ} (root : ℕ) {s : Kernel}
    → IsReady offset limit s
    → IsReady offset limit (with_root root s)
unfolding with_root
with_root-IsReady root r = record {
  direct = record { loaded = r.direct.loaded; nonzero = r.direct.nonzero; room = r.direct.room };
  bump = record {
    head_ne = r.bump.head_ne;
    at = r.bump.at;
    next = r.bump.next;
    size = r.bump.size;
    reach = r.bump.reach;
    room = r.bump.room;
    offset = r.bump.offset;
  };
  same = r.same;
  aligned = r.aligned;
  first = r.first;
  low = r.low;
}

pub with_root-Opens :
    {offset limit at : ℕ} (root : ℕ) {s t : Kernel}
    → Opens offset limit at (with_root root s) t
    → Opens offset limit at s (with_root s.pml4 t)
with_root-Opens {offset} {limit} {at} root {s} {t} o =
    let ready = with_root-IsReady s.pml4 o.ready in
    unfold with_root in
    record {
      ready = ready;
      head = o.head;
      free = o.free;
      entry = o.entry;
      zero = o.zero;
      same = o.same;
      root = refl;
      high = o.high;
    }

-- The state `t` with three new tables on the way of `v`.
pub record Walked (offset limit v : ℕ) (s t : Kernel) : Type 0 where
  pub ready : IsReady offset limit t
  pub head : t.head ≡ s.head + 3 * 0x1000
  pub free :
      t.global_boot_info.memory.free_mem_size ≡ s.global_boot_info.memory.free_mem_size - 3 * 0x1000
  pub tables :
      HasTables offset t v
        (s.head - offset + 7)
        (s.head - offset + 0x1000 + 7)
        (s.head - offset + 0x2000 + 7)
  pub frame : frame_of (s.head - offset + 0x2000 + 7) ≡ s.head - offset + 0x2000
  pub leaf : mmio_read64 t.mem (slot offset (s.head - offset + 0x2000) (v / 2 ^ 12 % 512)) ≡ 0
  pub same :
      (x : ℕ)
      → Outside (slot offset s.pml4 (v / 2 ^ 39 % 512)) 8 x
      → Outside s.head (3 * 0x1000 + sizeof_f_block) x
      → t.mem x ≡ s.mem x
  pub root : t.pml4 ≡ s.pml4

-- A word that a step does not touch.
pub Opens-read :
    {offset limit at : ℕ} {s t : Kernel} (b : ℕ)
    → Opens offset limit at s t
    → ((x : ℕ) → b ≤ x → x < b + 8 → Outside at 8 x × Outside s.head (0x1000 + sizeof_f_block) x)
    → mmio_read64 t.mem b ≡ mmio_read64 s.mem b
Opens-read {offset} {limit} {at} {s} {t} b o apart =
    mmio_read64_ext s.mem t.mem b (λ x lo hi. o.same x (apart x lo hi).0 (apart x lo hi).1)

module _ {offset limit v : ℕ} {s a b c : Kernel} (e : IsEmpty offset limit v s)
    (first : Opens offset limit (slot offset s.pml4 (v / 2 ^ 39 % 512)) s a)
    (second : Opens offset limit (slot offset (s.head - offset) (v / 2 ^ 30 % 512)) a b)
    (third : Opens offset limit (slot offset (a.head - offset) (v / 2 ^ 21 % 512)) b c) where
  pub heads : (a.head ≡ s.head + 0x1000) × (b.head ≡ s.head + 0x2000) × (c.head ≡ s.head + 0x3000)
  heads = omega (arith, first.head, second.head, third.head)

  -- The frames of the three tables, which the entries name.
  frames :
      (IsTable (s.head - offset + 7) × (frame_of (s.head - offset + 7) ≡ s.head - offset))
      × (IsTable (s.head - offset + 0x1000 + 7)
          × (frame_of (s.head - offset + 0x1000 + 7) ≡ s.head - offset + 0x1000))
      × (IsTable (s.head - offset + 0x2000 + 7)
          × (frame_of (s.head - offset + 0x2000 + 7) ≡ s.head - offset + 0x2000))
  frames =
      let lt : s.head + 0x3000 ≤ limit = omega (arith, e.ready.bump.reach, e.enough) in
      let al : (s.head - offset) % 2 ^ 12 ≡ 0 = e.ready.aligned in
      let pos : offset < s.head = e.ready.first in
      let top : limit ≤ offset + 2 ^ 47 = e.ready.low in
      (
        IsTable-linked (s.head - offset) al (λ z. omega arith) (omega arith),
        IsTable-linked (s.head - offset + 0x1000) (omega arith) (λ z. omega arith) (omega arith),
        IsTable-linked (s.head - offset + 0x2000) (omega arith) (λ z. omega arith) (omega arith),
      )

  same_root : c.pml4 ≡ s.pml4
  same_root = third.root ∙ second.root ∙ first.root

  read4 : mmio_read64 c.mem (slot offset s.pml4 (v / 2 ^ 39 % 512)) ≡ s.head - offset + 7
  read4 =
      let pos : offset < s.head = e.ready.first in
      Opens-read _ third (λ x lo hi. (omega (arith, e.below, heads), omega (arith, e.below, heads)))
      ∙ Opens-read _ second
          (λ x lo hi. (omega (arith, e.below, heads), omega (arith, e.below, heads)))
      ∙ first.entry

  read3 :
      mmio_read64 c.mem (slot offset (s.head - offset) (v / 2 ^ 30 % 512))
      ≡ s.head - offset + 0x1000 + 7
  read3 =
      let pos : offset < s.head = e.ready.first in
      Opens-read _ third (λ x lo hi. (omega (arith, heads), omega (arith, heads)))
      ∙ second.entry
      ∙ omega (arith, heads)

  read2 :
      mmio_read64 c.mem (slot offset (s.head - offset + 0x1000) (v / 2 ^ 21 % 512))
      ≡ s.head - offset + 0x2000 + 7
  read2 =
      let pos : offset < s.head = e.ready.first in
      let here : s.head - offset + 0x1000 ≡ a.head - offset = omega (arith, heads) in
      rw here (third.entry ∙ omega (arith, heads))

  pub three_tables : Walked offset limit v s c
  three_tables = record {
    ready = third.ready;
    head = omega (arith, heads);
    free = omega (arith, first.free, second.free, third.free);
    tables = record {
      direct = third.ready.direct;
      root = λ z. e.root (omega (arith, same_root));
      root_lt = omega (arith, same_root, e.below, e.ready.low, e.ready.bump.reach);
      read4 =
          subst (λ p. mmio_read64 c.mem (slot offset p (v / 2 ^ 39 % 512)) ≡ s.head - offset + 7)
            (sym same_root) read4;
      table4 = frames.0.0;
      read3 = rw frames.0.1 read3;
      table3 = frames.1.0;
      read2 = rw frames.1.1 read2;
      table2 = frames.2.0;
    };
    frame = frames.2.1;
    leaf =
        let pos : offset < s.head = e.ready.first in
        mmio_read64-zeros c.mem (slot offset (s.head - offset + 0x2000) (v / 2 ^ 12 % 512))
          (λ x lo hi. third.zero x (omega (arith, heads)) (omega (arith, heads)));
    same = λ x out new.
        let pos : offset < s.head = e.ready.first in
        third.same x (omega (arith, heads)) (omega (arith, heads))
        ∙ second.same x (omega (arith, heads)) (omega (arith, heads))
        ∙ first.same x out (omega arith);
    root = same_root;
  }
