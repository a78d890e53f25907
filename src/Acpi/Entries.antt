-- ===== src/Acpi/Entries.antt =====
-- The entries of the MADT that a walk meets (kernel/src/power/acpi/acpi.c, kernel/src/arch/cpu/smp.c),
-- and the walks of `acpi_remap_irq` and `cpu_detect_cores` over them.
use faceless_os.Base.{
  ℕ, zero, suc, ◌+◌, ◌-◌, ◌≤◌, ◌<◌, ◌≡◌, List, [], ◌∷◌, some, arith, length, ltb, ◌==◌, ap, refl,
  if◌then◌else◌, ◌&&◌, Bool-cases, inl, inr,
}
use faceless_os.Machine.Memory.{Mem}
use faceless_os.Machine.Io.{u8}
use faceless_os.Acpi.{
  entry_type, entry_length, override_source, override_interrupt, first_entry, entries_end,
  cores_end, remap_loop, acpi_remap_irq, cores_loop, cpu_detect_cores,
}

-- The entries from `p` on, each at the end of the one before it, up to `end` or to one of length 0.
pub data Walk (m : Mem) (end : ℕ) : ℕ → List ℕ → Type 0 where
  past : {p : ℕ} → end ≤ p → Walk m end p []
  empty : {p : ℕ} → p < end → entry_length m p ≡ 0 → Walk m end p []
  entry :
      {p : ℕ} {es : List ℕ}
      → p < end
      → 0 < entry_length m p
      → Walk m end (p + entry_length m p) es
      → Walk m end p (p ∷ es)

-- The entries of a walk are fixed by the table.
pub Walk-unique :
    {m : Mem} {end p : ℕ} {es es' : List ℕ} → Walk m end p es → Walk m end p es' → es ≡ es'
Walk-unique (past far) (past _) = refl
Walk-unique (past far) (empty near _) = absurd (omega arith)
Walk-unique (past far) (entry near _ _) = absurd (omega arith)
Walk-unique (empty near _) (past far) = absurd (omega arith)
Walk-unique (empty _ _) (empty _ _) = refl
Walk-unique (empty _ none_left) (entry _ pos _) = absurd (omega arith)
Walk-unique (entry near _ _) (past far) = absurd (omega arith)
Walk-unique (entry _ pos _) (empty _ none_left) = absurd (omega arith)
Walk-unique (entry {p = p} _ _ w) (entry _ _ w') = ap (λ l. p ∷ l) (Walk-unique w w')

-- Every walk ends, after at most one entry for each byte.
Walk-below :
    (m : Mem) (end room p : ℕ)
    → end ≤ p + room
    → (es : List ℕ) × Walk m end p es × (length es ≤ room)
Walk-below m end zero p h = ([], past (omega arith), omega arith)
Walk-below m end (suc room) p h = elim (Bool-cases (ltb p end)) [
  | inr far ↦ ([], past (ground arith), omega arith)
  | inl near ↦ elim (Bool-cases (entry_length m p == 0)) [
    | inl none_left ↦ ([], empty (ground arith) (ground arith), omega arith)
    | inr some_left ↦
        let pos : 0 < entry_length m p = ground arith in
        let (es, w, short) = Walk-below m end room (p + entry_length m p) (omega arith) in
        (p ∷ es, entry (ground arith) pos w, omega arith)
  ]
]

pub Walk-total : (m : Mem) (end p : ℕ) → (es : List ℕ) × Walk m end p es × (length es ≤ end - p)
Walk-total m end p = Walk-below m end (end - p) p (omega arith)

-- The interrupt of the first override for the line.
unfoldable pub remapped : Mem → ℕ → List ℕ → ℕ
remapped m irq [] = irq
remapped m irq (e ∷ es) =
    if entry_type m e == 2 && override_source m e == irq
    then override_interrupt m e
    else remapped m irq es

pub remap_loop-remapped :
    (fuel : ℕ) {m : Mem} {end p : ℕ} {es : List ℕ} (irq : ℕ)
    → Walk m end p es
    → length es < fuel
    → remap_loop fuel m p end irq ≡ some (remapped m irq es)
unfolding remap_loop remapped
remap_loop-remapped zero irq w h = absurd (omega arith)
remap_loop-remapped (suc fuel) irq (past far) h = ground arith
remap_loop-remapped (suc fuel) irq (empty near none_left) h = ground arith
remap_loop-remapped (suc fuel) irq (entry near pos w) h =
    ground (arith, remap_loop-remapped fuel irq w)

-- With more fuel than bytes up to the end of the walk `acpi_remap_irq` ends. It gives the
-- interrupt of the first override, among the entries of the walk, whose source is the line, or
-- the line itself when there is none.
pub acpi_remap_irq-remapped :
    (fuel : ℕ) (m : Mem) (madt irq : ℕ)
    → entries_end m madt - first_entry madt < fuel
    → (es : List ℕ) × Walk m (entries_end m madt) (first_entry madt) es
      × (acpi_remap_irq fuel m madt irq ≡ some (remapped m irq es))
unfolding acpi_remap_irq
acpi_remap_irq-remapped fuel m madt irq enough =
    let (es, w, short) = Walk-total m (entries_end m madt) (first_entry madt) in
    (es, w, remap_loop-remapped fuel irq w (omega arith))

-- How many entries are local APICs.
pub count_cores : Mem → List ℕ → ℕ
count_cores m [] = 0
count_cores m (e ∷ es) = (if entry_type m e == 0 then 1 else 0) + count_cores m es

cores_loop-count_cores :
    (fuel : ℕ) {m : Mem} {end p : ℕ} {es : List ℕ} (ncores : ℕ)
    → Walk m end p es
    → length es < fuel
    → ncores < 256
    → cores_loop fuel m p end ncores ≡ some (u8 (ncores + count_cores m es))
unfolding cores_loop count_cores
cores_loop-count_cores zero n w h small = absurd (omega arith)
cores_loop-count_cores (suc fuel) n (past far) h small = ground arith
cores_loop-count_cores (suc fuel) n (empty near none_left) h small = ground arith
cores_loop-count_cores (suc fuel) {m} n (entry {p} near pos w) h small =
    ground (arith, cores_loop-count_cores fuel (if entry_type m p == 0 then u8 (n + 1) else n) w)

-- With more fuel than bytes up to its end `cpu_detect_cores` ends. It keeps a count that was made
-- before, and otherwise gives the number of local APIC entries of the walk, modulo 256.
pub cpu_detect_cores-count_cores :
    (fuel : ℕ) (m : Mem) (madt ncores : ℕ)
    → cores_end m madt - first_entry madt < fuel
    → (es : List ℕ) × Walk m (cores_end m madt) (first_entry madt) es
      × (cpu_detect_cores fuel m madt ncores
          ≡ some (if ltb 0 ncores then ncores else u8 (count_cores m es)))
unfolding cpu_detect_cores
cpu_detect_cores-count_cores fuel m madt ncores enough =
    let (es, w, short) = Walk-total m (cores_end m madt) (first_entry madt) in
    (es, w, ground (arith, cores_loop-count_cores fuel ncores w))
