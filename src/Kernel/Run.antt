-- ===== src/Kernel/Run.antt =====
-- Runs of kernel code: a state monad over `Kernel` that can stop.
use optimist_os.Common.{ℕ, ◌+◌, ◌≡◌, refl, ◌==◌, if◌then◌else◌}
use optimist_os.Memory.{write8, mmio_read64, mmio_write64}
use optimist_os.Kernel.{Kernel}

-- `halted` is a run that has reached `hlt`, `fault` one that dereferences `nullptr`.
pub data Run (A : Type 0) : Type 0 where
  ok : A → Kernel → Run A
  halted : Kernel → Run A
  fault : Run A
  out_of_fuel : Run A

abbrev pub M : Type 0 → Type 0
M A = Kernel → Run A

abbrev pub pure : {A : Type 0} → A → M A
pure = ok

module _ {A B : Type 0} where
  abbrev pub and_then : Run A → (A → M B) → Run B
  and_then (ok a s) k = k a s
  and_then (halted s) k = halted s
  and_then fault k = fault
  and_then out_of_fuel k = out_of_fuel

  infixl 5 ◌>>=◌ ◌>>◌
  abbrev pub ◌>>=◌ : M A → (A → M B) → M B
  m >>= k = λ s. and_then (m s) k

  abbrev pub ◌>>◌ : M A → M B → M B
  m >> n = m >>= λ _. n

abbrev pub get : M Kernel
get s = ok s s

abbrev pub modify : (Kernel → Kernel) → M (Unit {0})
modify f s = ok tt (f s)

-- `asm volatile("hlt")`
abbrev pub hlt : {A : Type 0} → M A
hlt = halted

-- `p->field` of 64 bits at an offset.
abbrev pub read_field : ℕ → ℕ → M ℕ
read_field p offset s = if p == 0 then fault else ok (mmio_read64 s.mem (p + offset)) s

-- `p->field = value`
abbrev pub write_field : ℕ → ℕ → ℕ → M (Unit {0})
write_field p offset value s =
    if p == 0 then fault else ok tt (record s { mem = mmio_write64 s.mem (p + offset) value })

-- The same for a field of one byte.
abbrev pub write_flag : ℕ → ℕ → ℕ → M (Unit {0})
write_flag p offset value s =
    if p == 0 then fault else ok tt (record s { mem = write8 s.mem (p + offset) value })

-- What a run that returns did first.
pub and_then-ok :
    {A B : Type 0} (r : Run A) (k : A → M B) {b : B} {t : Kernel}
    → and_then r k ≡ ok b t
    → (a : A) × (u : Kernel) × (r ≡ ok a u) × (k a u ≡ ok b t)
and_then-ok (ok a u) k h = (a, u, refl, h)
and_then-ok (halted u) k h = absurd (cc)
and_then-ok fault k h = absurd (cc)
and_then-ok out_of_fuel k h = absurd (cc)
