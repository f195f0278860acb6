-- ===== src/Smp/Order.antt =====
-- In what order the processors come up in kernel/smp/smp.cpp.
use optimist_os.Common.{
  ℕ, ◌^◌, ◌≤◌, ◌<◌, ◌≡◌, ◌≢◌, ◌⊎◌, inl, inr, refl, arith, ltb, leb, ◌&&◌, Bool, true, Bool-cases,
  ap, zero, suc, ◌-◌, false, eq→==, ne→==, le→ltb, u32, ◌+◌, ◌==◌,
}
use optimist_os.Smp.{
  move, CpuInfo, make_cpu_info, absent, waiting, passed, entered, started, Smp, Step, pass, enter,
  count, Reach, here, next, sent,
}

-- The processors 1 to `n - 1`.
abbrev pub up_to : ℕ → ℕ → Bool
up_to n i = leb 1 i && ltb i n

record IsOrdered (n : ℕ) (s : Smp) : Type 0 where
  range : (i : ℕ) → s.phase i ≢ absent → i < n
  waiting_at : (i : ℕ) → s.phase i ≡ waiting → s.cpus_started ≤ i
  passed_at : (i : ℕ) → s.phase i ≡ passed → i ≡ s.cpus_started
  entered_at :
      (i : ℕ) (c : CpuInfo) → s.phase i ≡ entered c → (i ≡ s.cpus_started) × (c ≡ make_cpu_info i i)
  started_at :
      (i : ℕ) (c : CpuInfo) → s.phase i ≡ started c → (i < s.cpus_started) × (c ≡ make_cpu_info i i)

sent-IsOrdered : (n : ℕ) → IsOrdered n (sent (up_to n))
sent-IsOrdered n = record {
  range = λ i p. ground arith;
  waiting_at = λ i p. ground arith;
  passed_at = λ i p. ground arith;
  entered_at = λ i c p. ground arith;
  started_at = λ i c p. ground arith;
}

Step-IsOrdered : {n : ℕ} {s t : Smp} → n ≤ 2 ^ 31 → Step s t → IsOrdered n s → IsOrdered n t
Step-IsOrdered small (pass s i at le) v = record {
  range = λ j p. ground (arith, v.range j, v.range i);
  waiting_at = λ j p. ground (arith, v.waiting_at j);
  passed_at = λ j p. ground (arith, v.passed_at j, v.waiting_at i at);
  entered_at = λ j c p. ground (arith, v.entered_at j c);
  started_at = λ j c p. ground (arith, v.started_at j c);
}
Step-IsOrdered small (enter s i at) v = record {
  range = λ j p. ground (arith, v.range j, v.range i);
  waiting_at = λ j p. ground (arith, v.waiting_at j);
  passed_at = λ j p. ground (arith, v.passed_at j);
  entered_at = λ j c p. ground (arith, v.entered_at j c, v.passed_at i at);
  started_at = λ j c p. ground (arith, v.started_at j c);
}
Step-IsOrdered small (count s i info at) v = record {
  range = λ j p. ground (arith, v.range j, v.range i);
  waiting_at = λ j p. ground (arith, v.waiting_at j, v.entered_at i info at, v.range i);
  passed_at = λ j p. ground (arith, v.passed_at j, v.entered_at i info at);
  entered_at = λ j c p. ground (arith, v.entered_at j c, v.entered_at i info at);
  started_at = λ j c p. ground (arith, v.started_at j c, v.entered_at i info at, v.range i);
}

Reach-IsOrdered : {n : ℕ} {s t : Smp} → n ≤ 2 ^ 31 → Reach s t → IsOrdered n s → IsOrdered n t
Reach-IsOrdered small here v = v
Reach-IsOrdered small (next r st) v = Step-IsOrdered small st (Reach-IsOrdered small r v)

-- With the identifiers from 1 on without a gap, at most 2 ^ 31 processors come up one by one, in the order
-- of their identifiers, however they interleave: a processor behind the loop at `cpusStarted` is the one
-- whose turn it is, so no two of them are there at once, and every processor that has come up has its
-- identifier as its number in the table.
pub one_by_one :
    {n : ℕ} {s : Smp}
    → n ≤ 2 ^ 31
    → Reach (sent (up_to n)) s
    → ((i : ℕ) → s.phase i ≡ passed → i ≡ s.cpus_started)
      × ((i : ℕ) (c : CpuInfo) → s.phase i ≡ entered c → i ≡ s.cpus_started)
      × ((i : ℕ) (c : CpuInfo)
          → s.phase i ≡ started c
          → (i < s.cpus_started) × (c.cpu_number ≡ i) × (c.lapic_id ≡ i))
unfolding make_cpu_info
one_by_one {n} small r =
    let v = Reach-IsOrdered small r (sent-IsOrdered n) in
    (
      v.passed_at,
      λ i c p. (v.entered_at i c p).0,
      λ i c p.
          let (lt, same) = v.started_at i c p in
          (lt, ap (λ (x : CpuInfo). x.cpu_number) same, ap (λ (x : CpuInfo). x.lapic_id) same),
    )

-- No processor has left the loop.
IsHeld : Smp → Type 0
IsHeld s =
    (s.cpus_started ≡ 1) × ((i : ℕ) → (s.phase i ≡ absent) ⊎ ((s.phase i ≡ waiting) × (2 ≤ i)))

Step-IsHeld : {s t : Smp} → Step s t → IsHeld s → IsHeld t
unfolding IsHeld
Step-IsHeld (pass s i at le) v = absurd (ground (arith, v.1 i))
Step-IsHeld (enter s i at) v = absurd (ground (arith, v.1 i))
Step-IsHeld (count s i info at) v = absurd (ground (arith, v.1 i))

Reach-IsHeld : {s t : Smp} → Reach s t → IsHeld s → IsHeld t
Reach-IsHeld here v = v
Reach-IsHeld (next r st) v = Step-IsHeld st (Reach-IsHeld r v)

-- Where no other processor has an identifier below 2, none of them ever comes up, and the count at which
-- `initSMP` waits stays 1.
pub held :
    (present : ℕ → Bool) {s : Smp}
    → ((i : ℕ) → present i ≡ true → 2 ≤ i)
    → Reach (sent present) s
    → (s.cpus_started ≡ 1) × ((i : ℕ) (c : CpuInfo) → s.phase i ≢ started c)
unfolding IsHeld
held present {s} gap r =
    let v = Reach-IsHeld r (
      refl,
      λ i. elim (Bool-cases (present i)) [
        | inl there ↦ inr (rw there refl, gap i there)
        | inr gone ↦ inl (rw gone refl)
      ],
    ) in
    (v.0, λ i c p. elim (v.1 i) [ inl e ↦ absurd (cc) | inr e ↦ absurd (cc) ])

-- The state in which the processors below `k + 1` have come up and the others wait.
climb :
    (n k : ℕ)
    → n ≤ 2 ^ 31
    → k < n
    → (s : Smp) × Reach (sent (up_to n)) s
      × (s.cpus_started ≡ suc k)
      × ((j : ℕ) → suc k ≤ j → j < n → s.phase j ≡ waiting)
climb n zero small h = (sent (up_to n), here, refl, λ j lo hi. ground arith)
climb n (suc k) small h =
    let (s, r, cs, w) = climb n k small (omega arith) in
    let i : ℕ = suc k in
    let info : CpuInfo = make_cpu_info i s.cpus_started in
    let s1 : Smp = record s { phase = move s.phase i passed } in
    let s2 : Smp = record s1 { phase = move s1.phase i (entered info) } in
    let turn : ltb s.cpus_started i ≡ false = le→ltb s.cpus_started i (omega arith) in
    let same : (i == i) ≡ true = eq→== i i refl in
    (
      record { cpus_started = u32 (s.cpus_started + 1); phase = move s2.phase i (started info) },
      next
          (next (next r (pass s i (w i (omega arith) (omega arith)) turn))
            (enter s1 i (rw same refl)))
          (count s2 i info (rw same refl)),
      omega arith,
      λ j lo hi. rw (ne→== j i (λ e. omega arith)) (w j (omega arith) hi),
    )

-- With the identifiers from 1 to `n - 1`, the processors can all come up, so that `initSMP` sees its count `n`,
-- for `n` from 1 to 2 ^ 31; but where no other processor has an identifier below 2, none of them ever does,
-- and the count stays 1.
pub come_up :
    (n : ℕ) (present : ℕ → Bool)
    → 1 ≤ n
    → n ≤ 2 ^ 31
    → ((i : ℕ) → present i ≡ true → 2 ≤ i)
    → ((s : Smp) × Reach (sent (up_to n)) s × (s.cpus_started ≡ n))
      × ((s : Smp)
          → Reach (sent present) s
          → (s.cpus_started ≡ 1) × ((i : ℕ) (c : CpuInfo) → s.phase i ≢ started c))
come_up n present pos small gap =
    let (s, r, cs, w) = climb n (n - 1) small (omega arith) in
    ((s, r, omega arith), λ t reached. held present gap reached)
