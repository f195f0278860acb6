-- ===== src/Acpi/Last.antt =====
-- What is left of the interrupt table after `initMADT` of kernel/acpi/madt.cpp, and what
-- kernel/acpi/ioapic.cpp does with it.
use optimist_os.Common.{
  ℕ, zero, suc, ◌+◌, ◌≤◌, ◌<◌, ◌≡◌, ◌≢◌, ◌⊎◌, ◌∙◌, refl, arith, none, some, inl, inr, ltb, le→ltb,
  lt→ltb, ne→==, List, [], ◌∷◌, Option-cases, ap, length, length-set, set, map, sym, ◌==◌,
  Bool-cases, sub64, u64,
}
use optimist_os.Memory.{Memory, mmio_read32}
use optimist_os.Apic.{IoApicInfo, get_gsi}
use optimist_os.Acpi.Madt.{
  Madt, take, length_at, table_at, sizeof_madt_info, visit, madt_loop, init_madt, ended, spinning,
  read_io_apic, read_iso, io_apics, isos,
}

-- The offset up to which the walk goes on.
abbrev pub last_offset : Memory → ℕ → ℕ
last_offset mem table = sub64 (mmio_read32 mem (table + length_at)) sizeof_madt_info

-- The entry behind the one at an offset.
abbrev pub next_offset : Memory → ℕ → ℕ → ℕ
next_offset mem table offset = u64 (offset + mem (table + table_at + offset + 1))

-- The walk from the first offset reaches the second, and `last` is the entry that it visits last.
pub data Visits (mem : Memory) (table : ℕ) : ℕ → ℕ → Type 0 where
  stop :
      (offset : ℕ)
      → offset ≤ last_offset mem table
      → last_offset mem table < next_offset mem table offset
      → Visits mem table offset (table + table_at + offset)
  step :
      (offset last : ℕ)
      → offset ≤ last_offset mem table
      → Visits mem table (next_offset mem table offset) last
      → Visits mem table offset last

-- A walk that visits a last entry ends, and nothing but the last round is left in the lengths.
madt_loop-Visits :
    {mem : Memory} {table offset last : ℕ}
    → Visits mem table offset last
    → (madt : Madt)
    → (n : ℕ) × (m : Madt) × (madt_loop n mem table offset madt ≡ some (visit mem last m))
unfolding madt_loop
madt_loop-Visits {mem} {table} (stop offset le lt) madt = (
  2,
  madt,
  rw
      (
        le→ltb (last_offset mem table) offset le,
        lt→ltb (last_offset mem table) (next_offset mem table offset) lt,
      )
      refl,
)
madt_loop-Visits {mem} {table} (step offset last le rest) madt =
    let (n, m, run) = madt_loop-Visits rest (visit mem (table + table_at + offset) madt) in
    (suc n, m, rw (le→ltb (last_offset mem table) offset le) run)

length-visit :
    (mem : Memory) (entry : ℕ) (madt : Madt)
    → (length (visit mem entry madt).madt_information_list ≡ length madt.madt_information_list)
      × (length (visit mem entry madt).madt_iso_list ≡ length madt.madt_iso_list)
unfolding visit
length-visit mem entry madt = (
  ground (arith, length-set madt.madt_information_list 0 entry),
  ground (arith, length-set madt.madt_iso_list 0 entry),
)

-- Conversely, a walk that has ended has visited a last entry, if its first offset is not behind the end.
madt_loop-last :
    (n : ℕ) (mem : Memory) (table offset : ℕ) (madt m : Madt)
    → madt_loop n mem table offset madt ≡ some m
    → ((last_offset mem table < offset) × (m ≡ madt))
      ⊎ ((last : ℕ) × Visits mem table offset last
          × (w : Madt) × (m ≡ visit mem last w)
          × (length w.madt_information_list ≡ length madt.madt_information_list)
          × (length w.madt_iso_list ≡ length madt.madt_iso_list))
unfolding madt_loop
madt_loop-last zero mem table offset madt m h = absurd (cc)
madt_loop-last (suc n) mem table offset madt m h =
    let entry : ℕ = table + table_at + offset in
    elim (Bool-cases (ltb (last_offset mem table) offset)) [
      | inl over ↦ inl (ground arith, cc)
      | inr on ↦
          let le : offset ≤ last_offset mem table = ground arith in
          elim (madt_loop-last n mem table (next_offset mem table offset) (visit mem entry madt) m
            (cc)) [
              | inl (lt, same) ↦ inr (entry, stop offset le lt, madt, same, refl, refl)
              | inr (last, rest, w, same, devices, overrides) ↦
                  let (d, o) = length-visit mem entry madt in
                  inr (last, step offset last le rest, w, same, devices ∙ d, overrides ∙ o)
            ]
    ]

-- The walk from the first offset reaches the second.
pub data Reaches (mem : Memory) (table : ℕ) : ℕ → ℕ → Type 0 where
  here : (offset : ℕ) → Reaches mem table offset offset
  there :
      (offset to : ℕ)
      → offset ≤ last_offset mem table
      → Reaches mem table (next_offset mem table offset) to
      → Reaches mem table offset to

-- An entry of length 0 holds the walk.
madt_loop-stuck :
    (n : ℕ) (mem : Memory) (table offset : ℕ) (madt : Madt)
    → offset ≤ last_offset mem table
    → next_offset mem table offset ≡ offset
    → madt_loop n mem table offset madt ≡ none
unfolding madt_loop
madt_loop-stuck zero mem table offset madt le same = refl
madt_loop-stuck (suc n) mem table offset madt le same =
    rw (le→ltb (last_offset mem table) offset le, same)
      (madt_loop-stuck n mem table offset _ le same)

madt_loop-Reaches :
    {mem : Memory} {table : ℕ} (n : ℕ) {offset to : ℕ}
    → Reaches mem table offset to
    → (madt : Madt) → to ≤ last_offset mem table
    → next_offset mem table to ≡ to
    → madt_loop n mem table offset madt ≡ none
unfolding madt_loop
madt_loop-Reaches n (here offset) madt le same = madt_loop-stuck n _ _ offset madt le same
madt_loop-Reaches zero (there offset to lo rest) madt le same = refl
madt_loop-Reaches {mem} {table} (suc n) (there offset to lo rest) madt le same =
    rw (le→ltb (last_offset mem table) offset lo) (madt_loop-Reaches n rest _ le same)

-- For the walk of a table that is not `nullptr`: it ends, for some number of rounds, if it visits a last
-- entry; and it never ends if it reaches an entry whose length byte is 0, such as the zeros that may lie
-- behind the table, which the bound of the walk lets it read as entries.
pub init_madt-ends :
    {mem : Memory} {table : ℕ} (madt : Madt)
    → table ≢ 0
    → ((last : ℕ)
        → Visits mem table 0 last
        → (n : ℕ) × (m : Madt) × (init_madt n mem table madt ≡ ended (visit mem last m)))
      × ((to : ℕ)
          → Reaches mem table 0 to
          → to ≤ last_offset mem table
          → mem (table + table_at + to + 1) ≡ 0
          → (n : ℕ) → init_madt n mem table madt ≡ spinning)
unfolding init_madt
init_madt-ends {mem} {table} madt ne = (
  λ last v. let (n, m, run) = madt_loop-Visits v madt in (n, m, rw (ne→== table 0 ne, run) refl),
  λ to r le z n.
      let same : next_offset mem table to ≡ to = rw z (omega arith) in
      rw (ne→== table 0 ne, madt_loop-Reaches n r madt le same) refl,
)

take-set : (l : List ℕ) (p : ℕ) → 0 < length l → take 1 (set l 0 p) ≡ p ∷ []
take-set [] p h = absurd (omega arith)
take-set (x ∷ l) p h = refl

visit-device :
    (mem : Memory) (last : ℕ) (w : Madt)
    → mem last ≡ 1
    → visit mem last w ≡ record w {
      io_apic_len = 1;
      madt_iso_len = 0;
      madt_information_list = set w.madt_information_list 0 last;
    }
unfolding visit
visit-device mem last w e = rw e refl

visit-iso :
    (mem : Memory) (last : ℕ) (w : Madt)
    → mem last ≡ 2
    → visit mem last w
      ≡ record w { io_apic_len = 0; madt_iso_len = 1; madt_iso_list = set w.madt_iso_list 0 last }
unfolding visit
visit-iso mem last w e = rw e refl

visit-other :
    (mem : Memory) (last : ℕ) (w : Madt)
    → (mem last ≢ 1 → (visit mem last w).io_apic_len ≡ 0)
      × (mem last ≢ 1 → mem last ≢ 2 → (visit mem last w).madt_iso_len ≡ 0)
unfolding visit
visit-other mem last w = (λ ne. ground arith, λ ne ne'. ground arith)

device-tables :
    (mem : Memory) (last : ℕ) (w : Madt)
    → 0 < length w.madt_information_list
    → mem last ≡ 1
    → (io_apics mem (visit mem last w) ≡ read_io_apic mem last ∷ [])
      × (isos mem (visit mem last w) ≡ [])
unfolding io_apics isos
device-tables mem last w h e =
    rw (visit-device mem last w e)
      (ap (map (read_io_apic mem)) (take-set w.madt_information_list last h), refl)

iso-tables :
    (mem : Memory) (last : ℕ) (w : Madt)
    → 0 < length w.madt_iso_list
    → mem last ≡ 2
    → (io_apics mem (visit mem last w) ≡ [])
      × (isos mem (visit mem last w) ≡ read_iso mem last ∷ [])
unfolding io_apics isos
iso-tables mem last w h e =
    rw (visit-iso mem last w e) (refl, ap (map (read_iso mem)) (take-set w.madt_iso_list last h))

no_device : (mem : Memory) (m : Madt) → m.io_apic_len ≡ 0 → io_apics mem m ≡ []
unfolding io_apics
no_device mem m e = rw e refl

no_override : (mem : Memory) (m : Madt) → m.madt_iso_len ≡ 0 → isos mem m ≡ []
unfolding isos
no_override mem m e = rw e refl

get_gsi-nobody :
    {ioapics : List IoApicInfo}
    → ioapics ≡ []
    → (registers : IoApicInfo → ℕ → ℕ) (at_null : IoApicInfo) (gsi : ℕ)
    → get_gsi registers at_null ioapics gsi ≡ at_null
unfolding get_gsi
get_gsi-nobody e registers at_null gsi = rw e refl

-- Whatever the table and the number of its devices and overrides, `initMADT` leaves at most the last entry
-- of its walk: if it is a device, that device alone and no override; if it is an override, that override alone
-- and no device; and if it is anything else neither. Where it is no device, `getGSI` finds none for any number,
-- and `redirectGSI` goes on with what stands behind `nullptr`. Both lists must have room for one.
pub init_madt-last :
    (n : ℕ) (mem : Memory) (table : ℕ) (madt m : Madt)
    → 0 < length madt.madt_information_list
    → 0 < length madt.madt_iso_list
    → init_madt n mem table madt ≡ ended m
    → (last : ℕ) × Visits mem table 0 last
      × (mem last ≡ 1 → (io_apics mem m ≡ read_io_apic mem last ∷ []) × (isos mem m ≡ []))
      × (mem last ≡ 2 → (io_apics mem m ≡ []) × (isos mem m ≡ read_iso mem last ∷ []))
      × (mem last ≢ 1 → mem last ≢ 2 → (io_apics mem m ≡ []) × (isos mem m ≡ []))
      × (mem last ≢ 1
          → (registers : IoApicInfo → ℕ → ℕ) (at_null : IoApicInfo) (gsi : ℕ)
          → get_gsi registers at_null (io_apics mem m) gsi ≡ at_null)
unfolding init_madt
init_madt-last n mem table madt m room room' run = elim (Bool-cases (table == 0)) [
  | inl null ↦ absurd (cc)
  | inr table_ne ↦ elim (Option-cases (madt_loop n mem table 0 madt)) [
    | inl out ↦ absurd (cc)
    | inr (r, walk) ↦
        let same : r ≡ m = cc in
        elim (madt_loop-last n mem table 0 madt r walk) [
          | inl (lt, _) ↦ absurd (omega arith)
          | inr (last, v, w, e, devices, overrides) ↦
              let result : m ≡ visit mem last w = sym same ∙ e in
              let (other, neither) = visit-other mem last w in
              (
                last,
                v,
                λ one. rw result (device-tables mem last w (omega (arith, devices)) one),
                λ two. rw result (iso-tables mem last w (omega (arith, overrides)) two),
                λ ne ne'. rw result (
                  no_device mem (visit mem last w) (other ne),
                  no_override mem (visit mem last w) (neither ne ne'),
                ),
                λ ne.
                    get_gsi-nobody
                      (ap (io_apics mem) result ∙ no_device mem (visit mem last w) (other ne)),
              )
        ]
  ]
]
