-- ===== src/Strings/Laws.antt =====
-- What `memoryset`, `memorycmp` and `memorycpy` of kernel/lib/string.cpp do to every byte.
use optimist_os.Common.{
  ℕ, zero, suc, ◌+◌, ◌%◌, ◌^◌, ◌≤◌, ◌<◌, ◌≡◌, ◌↔◌, ◌⊎◌, inl, inr, Bool, true, refl, arith, ◌==◌,
  if◌then◌else◌, ltb, leb, ◌&&◌, Bool-cases, ℕ_discrete,
}
use optimist_os.Memory.{Memory, write8}
use optimist_os.Memory.Laws.{Outside, write8_self, write8-ne}
use optimist_os.Strings.{
  memoryset_loop, memoryset, memorycmp_loop, memorycmp, memorycpy_loop, memorycpy,
}

-- `x` is one of the `n` bytes from `a` on.
abbrev pub within : ℕ → ℕ → ℕ → Bool
within a n x = leb a x && ltb x (a + n)

memoryset_loop_lem :
    (start value left i : ℕ) (m : Memory) (x : ℕ)
    → memoryset_loop start value left i m x
      ≡ (if within (start + i) left x then value % 2 ^ 8 else m x)
unfolding memoryset_loop write8
memoryset_loop_lem start value zero i m x = ground arith
memoryset_loop_lem start value (suc left) i m x =
    ground (arith, memoryset_loop_lem start value left (i + 1) (write8 m (start + i) value) x)

-- `memoryset` stores the value in each of the `num` bytes from `start` on and changes no other byte.
pub memoryset_lem :
    (start value num : ℕ) (m : Memory) (x : ℕ)
    → memoryset start value num m x ≡ (if within start num x then value % 2 ^ 8 else m x)
unfolding memoryset
memoryset_lem start value num m x = ground (arith, memoryset_loop_lem start value num 0 m x)

-- The bytes `i` to `i + n` of both blocks agree.
abbrev SameFrom : Memory → ℕ → ℕ → ℕ → ℕ → Type 0
SameFrom m p1 p2 i n = (k : ℕ) → i ≤ k → k < i + n → m (p1 + k) ≡ m (p2 + k)

memorycmp_loop_sound :
    (p1 p2 left i : ℕ) (m : Memory) → memorycmp_loop p1 p2 left i m ≡ true → SameFrom m p1 p2 i left
unfolding memorycmp_loop
memorycmp_loop_sound p1 p2 zero i m h k lo hi = absurd (omega arith)
memorycmp_loop_sound p1 p2 (suc left) i m h k lo hi = elim (Bool-cases (k == i)) [
  | inl here ↦ ground arith
  | inr later ↦
      memorycmp_loop_sound p1 p2 left (i + 1) m (ground arith) k (ground arith) (omega arith)
]

memorycmp_loop_complete :
    (p1 p2 left i : ℕ) (m : Memory) → SameFrom m p1 p2 i left → memorycmp_loop p1 p2 left i m ≡ true
unfolding memorycmp_loop
memorycmp_loop_complete p1 p2 zero i m h = refl
memorycmp_loop_complete p1 p2 (suc left) i m h = ground (
  arith,
  h i (omega arith) (omega arith),
  memorycmp_loop_complete p1 p2 left (i + 1) m (λ k lo hi. h k (omega arith) (omega arith)),
)

-- `memorycmp` returns true exactly when the first `n` bytes of the two blocks are equal.
pub memorycmp_iff :
    (s1 s2 n : ℕ) (m : Memory)
    → (memorycmp s1 s2 n m ≡ true) ↔ ((k : ℕ) → k < n → m (s1 + k) ≡ m (s2 + k))
unfolding memorycmp
memorycmp_iff s1 s2 n m = (
  λ h k lt. memorycmp_loop_sound s1 s2 n 0 m h k (omega arith) (omega arith),
  λ h. memorycmp_loop_complete s1 s2 n 0 m (λ k lo hi. h k (omega arith)),
)

-- Every cell holds a byte.
abbrev pub IsBytes : Memory → Type 0
IsBytes m = (x : ℕ) → m x < 2 ^ 8

-- The source is not overwritten before it is read: no address that is written up to index `i` is read later.
abbrev pub IsCopyable : ℕ → ℕ → ℕ → Type 0
IsCopyable dest src num = (dest ≤ src) ⊎ (src + num ≤ dest)

memorycpy_loop-Outside :
    (dest src left i : ℕ) (m : Memory) (x : ℕ)
    → Outside (dest + i) left x
    → memorycpy_loop dest src left i m x ≡ m x
unfolding memorycpy_loop
memorycpy_loop-Outside dest src zero i m x h = refl
memorycpy_loop-Outside dest src (suc left) i m x h = ground (
  arith,
  memorycpy_loop-Outside dest src left (i + 1) (write8 m (dest + i) (m (src + i))) x,
  write8-ne m (dest + i) (m (src + i)) x,
)

write8-IsBytes : (m : Memory) (a v : ℕ) → IsBytes m → IsBytes (write8 m a v)
unfolding write8
write8-IsBytes m a v b x = ground (arith, b x)

memorycpy_loop-inside :
    (dest src left i : ℕ) (m : Memory) (k : ℕ)
    → IsBytes m
    → IsCopyable dest src (i + left)
    → i ≤ k
    → k < i + left
    → memorycpy_loop dest src left i m (dest + k) ≡ m (src + k)
unfolding memorycpy_loop
memorycpy_loop-inside dest src zero i m k b c lo hi = absurd (omega arith)
memorycpy_loop-inside dest src (suc left) i m k b c lo hi =
    let m' : Memory = write8 m (dest + i) (m (src + i)) in
    elim (ℕ_discrete k i) [
      | yes e ↦ ground (
        arith,
        memorycpy_loop-Outside dest src left (i + 1) m' (dest + i),
        write8_self m (dest + i) (m (src + i)),
        b (src + i),
      )
      | no ne ↦ omega (
        arith,
        memorycpy_loop-inside dest src left (i + 1) m' k
            (write8-IsBytes m (dest + i) (m (src + i)) b) (omega arith) (omega arith) (omega arith),
        write8-ne m (dest + i) (m (src + i)) (src + k) (omega arith),
      )
    ]

-- When the destination starts at or below the source, or behind its end, `memorycpy` copies every
-- byte of the source as it was before the call, and changes no byte outside the destination.
pub memorycpy_lem :
    (destination source num : ℕ) (m : Memory)
    → IsBytes m
    → IsCopyable destination source num
    → ((k : ℕ) → k < num → memorycpy destination source num m (destination + k) ≡ m (source + k))
      × ((x : ℕ) → Outside destination num x → memorycpy destination source num m x ≡ m x)
unfolding memorycpy
memorycpy_lem destination source num m b c = (
  λ k lt.
      memorycpy_loop-inside destination source num 0 m k b (omega arith) (omega arith)
        (omega arith),
  λ x out. memorycpy_loop-Outside destination source num 0 m x (omega arith),
)
