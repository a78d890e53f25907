-- ===== src/Acpi/Madt.antt =====
-- `parse_madt` (kernel/src/power/acpi/acpi.c): what it takes from the entries of the table.
pub mod Ids
use Prim.Native.Nat.{min}
use faceless_os.Base.{
  ℕ, zero, suc, ◌+◌, ◌-◌, ◌≤◌, ◌<◌, ◌≡◌, refl, List, [], ◌∷◌, Option, some, arith, length, get_or,
  ltb, leb, ◌==◌, if◌then◌else◌, ◌&&◌, Bool-cases, inl, inr, true, false, ◌∙◌, ap,
}
use faceless_os.Machine.Memory.{Mem, store, read_le}
use faceless_os.Machine.Io.{Trace, u8}
use faceless_os.Acpi.{
  Cpus, entry_type, entry_length, processor_id, io_apic_addr, first_entry, entries_end, parse_entry,
  parse_loop, parse_madt,
}
use faceless_os.Acpi.Entries.{Walk, past, empty, entry, Walk-total}

-- The effect of one entry on the variables.
pub parsed_entry : Mem → ℕ → Cpus → Cpus
parsed_entry m p cpus =
    if entry_type m p == 0
    then if ltb 16 cpus.cpuid_idx then cpus else record cpus {
      acpi_cpuids = store cpus.acpi_cpuids cpus.cpuid_idx (processor_id m p);
      cpuid_idx = u8 (cpus.cpuid_idx + 1);
    }
    else if entry_type m p == 1
    then record cpus { io_apic_ptr = io_apic_addr m p }
    else cpus

pub parsed : Mem → List ℕ → Cpus → Cpus
unfolding parsed_entry
parsed m [] cpus = cpus
parsed m (e ∷ es) cpus = parsed m es (parsed_entry m e cpus)

parse_entry-parsed_entry :
    (m : Mem) (p : ℕ) (cpus : Cpus) (t : Trace) → (parse_entry m p cpus t).0 ≡ parsed_entry m p cpus
unfolding parse_entry parsed_entry
parse_entry-parsed_entry m p cpus t = elim (Bool-cases (entry_type m p == 0)) [
  | inl core ↦ elim (Bool-cases (ltb 16 cpus.cpuid_idx)) [
    | inl full ↦ rw (core, full)
    | inr room ↦ rw (core, room)
  ]
  | inr other ↦ elim (Bool-cases (entry_type m p == 1)) [
    | inl io ↦ rw (other, io)
    | inr neither ↦ elim (Bool-cases (entry_type m p == 2)) [
      | inl override ↦ rw (other, neither, override)
      | inr unknown ↦ rw (other, neither, unknown)
    ]
  ]
]

parse_loop-parsed :
    (fuel : ℕ) {m : Mem} {end p : ℕ} {es : List ℕ} (cpus : Cpus) (t : Trace)
    → Walk m end p es
    → length es < fuel
    → (parse_loop fuel m p end cpus t).0 ≡ some (parsed m es cpus)
unfolding parse_loop parsed
parse_loop-parsed zero cpus t w h = absurd (omega arith)
parse_loop-parsed (suc fuel) {end} {p} cpus t (past far) h =
    let stop : ltb p end ≡ false = ground arith in rw stop
parse_loop-parsed (suc fuel) {m} {end} {p} cpus t (empty near none_left) h =
    let inside : ltb p end ≡ true = ground arith in
    let stop : (entry_length m p == 0) ≡ true = ground arith in rw (inside, stop)
parse_loop-parsed (suc fuel) {m} {end} {p} cpus t (entry {es} near pos w) h =
    let inside : ltb p end ≡ true = ground arith in
    let more : (entry_length m p == 0) ≡ false = ground arith in
    rw (inside, more)
      (parse_loop-parsed fuel (parse_entry m p cpus t).0 (parse_entry m p cpus t).1 w (omega arith)
        ∙ ap (λ c. some (parsed m es c)) (parse_entry-parsed_entry m p cpus t))

-- The processor identifiers of the local APIC entries, in order.
pub core_ids : Mem → List ℕ → List ℕ
core_ids m [] = []
core_ids m (e ∷ es) =
    if entry_type m e == 0 then processor_id m e ∷ core_ids m es else core_ids m es

get_or-cons-sub :
    (x : ℕ) (xs : List ℕ) (i k d : ℕ)
    → i ≤ k
    → get_or (x ∷ xs) (k - i) d ≡ (if k == i then x else get_or xs (k - (i + 1)) d)
get_or-cons-sub x xs i k d h = elim (Bool-cases (k == i)) [
  | inl same ↦ let e : k - i ≡ 0 = ground arith in rw (same, e)
  | inr later ↦ let e : k - i ≡ suc (k - (i + 1)) = ground arith in rw (later, e)
]

parsed-cons :
    (m : Mem) (e : ℕ) (es : List ℕ) (cpus : Cpus) (k : ℕ)
    → (parsed m (e ∷ es) cpus).acpi_cpuids k ≡ (parsed m es (parsed_entry m e cpus)).acpi_cpuids k
unfolding parsed
parsed-cons m e es cpus k = refl

-- From the index on, and up to index 16, the array gets the identifiers in order.
parsed-acpi_cpuids :
    (m : Mem) (es : List ℕ) (cpus : Cpus) (k : ℕ)
    → cpus.cpuid_idx ≤ 17
    → (parsed m es cpus).acpi_cpuids k ≡ (
        if leb cpus.cpuid_idx k && ltb k 17
        then get_or (core_ids m es) (k - cpus.cpuid_idx) (cpus.acpi_cpuids k)
        else cpus.acpi_cpuids k)
parsed-acpi_cpuids m [] cpus k h = unfold parsed core_ids in ground arith
parsed-acpi_cpuids m (e ∷ es) cpus k h = elim (Bool-cases (entry_type m e == 0)) [
  | inr other ↦
      let same_cpus : ((parsed_entry m e cpus).acpi_cpuids ≡ cpus.acpi_cpuids)
          × ((parsed_entry m e cpus).cpuid_idx ≡ cpus.cpuid_idx) =
        unfold parsed_entry in ground arith in
      let ids : core_ids m (e ∷ es) ≡ core_ids m es = unfold core_ids in rw other in
      let ih = parsed-acpi_cpuids m es (parsed_entry m e cpus) k (omega (arith, same_cpus)) in
      rw ids (parsed-cons m e es cpus k ∙ ih ∙ rw (same_cpus.0, same_cpus.1))
  | inl core ↦
      let ids : core_ids m (e ∷ es) ≡ processor_id m e ∷ core_ids m es =
        unfold core_ids in rw core in
      rw ids (elim (Bool-cases (ltb 16 cpus.cpuid_idx)) [
        | inl full ↦
            let unchanged : parsed_entry m e cpus ≡ cpus = unfold parsed_entry in rw (core, full) in
            let ih = parsed-acpi_cpuids m es cpus k h in
            parsed-cons m e es cpus k
            ∙ (ap (λ c. (parsed m es c).acpi_cpuids k) unchanged ∙ ih ∙ ground arith)
        | inr room ↦
            let next = (parsed_entry m e cpus).cpuid_idx in
            let stored : ((parsed_entry m e cpus).acpi_cpuids k
                  ≡ store cpus.acpi_cpuids cpus.cpuid_idx (processor_id m e) k)
                × (next ≡ cpus.cpuid_idx + 1) =
              unfold parsed_entry in ground arith in
            let ih = parsed-acpi_cpuids m es (parsed_entry m e cpus) k (ground (arith, stored.1)) in
            let shift =
              get_or-cons-sub (processor_id m e) (core_ids m es) cpus.cpuid_idx k
                (cpus.acpi_cpuids k) in
            (parsed-cons m e es cpus k ∙ ih ∙ ground (arith, stored.0, stored.1, shift))
      ])
]

-- How many local APIC entries are stored: 17 at most, one more than the array holds.
parsed-cpuid_idx :
    (m : Mem) (es : List ℕ) (cpus : Cpus)
    → cpus.cpuid_idx ≤ 17
    → (parsed m es cpus).cpuid_idx ≡ min 17 (cpus.cpuid_idx + length (core_ids m es))
unfolding parsed core_ids parsed_entry
parsed-cpuid_idx m [] cpus h = omega arith
parsed-cpuid_idx m (e ∷ es) cpus h = ground (arith, parsed-cpuid_idx m es (parsed_entry m e cpus))

-- The address of the last I/O APIC entry, or what was there before.
unfoldable pub last_io_apic : Mem → List ℕ → ℕ → ℕ
last_io_apic m [] addr = addr
last_io_apic m (e ∷ es) addr =
    last_io_apic m es (if entry_type m e == 1 then io_apic_addr m e else addr)

parsed-io_apic_ptr :
    (m : Mem) (es : List ℕ) (cpus : Cpus)
    → (parsed m es cpus).io_apic_ptr ≡ last_io_apic m es cpus.io_apic_ptr
unfolding parsed last_io_apic
parsed-io_apic_ptr m [] cpus = refl
parsed-io_apic_ptr m (e ∷ es) cpus =
    parsed-io_apic_ptr m es (parsed_entry m e cpus)
    ∙ ap (last_io_apic m es) (unfold parsed_entry in ground arith)

-- What `parse_madt` leaves in the variables, given the entries that it walks over.
pub record Parsed (m : Mem) (madt : ℕ) (old : Cpus) (es : List ℕ) (r : ℕ × Option Cpus)
    : Type 0 where
  pub local_apic_addr : r.0 ≡ read_le m (madt + 36) 4
  pub new : Cpus
  pub returns : r.1 ≡ some new
  pub io_apic : new.io_apic_ptr ≡ last_io_apic m es old.io_apic_ptr
  pub cores : new.cpuid_idx ≡ min 17 (length (core_ids m es))
  pub cpuids :
      (k : ℕ)
      → new.acpi_cpuids k
        ≡ (if ltb k 17 then get_or (core_ids m es) k (old.acpi_cpuids k) else old.acpi_cpuids k)

-- With more fuel than bytes up to the end of the walk `parse_madt` ends, and the entries that it
-- goes over are a walk of the table. The array gets the processor identifiers of their local
-- APICs in order, up to and including index 16, which is behind its end; the last I/O APIC among
-- them gives the address.
pub parse_madt-Parsed :
    (fuel : ℕ) (m : Mem) (madt : ℕ) (old : Cpus) (t : Trace)
    → entries_end m madt - first_entry madt < fuel
    → (es : List ℕ) × Walk m (entries_end m madt) (first_entry madt) es
      × Parsed m madt old es (parse_madt fuel m madt old t).0
unfolding parse_madt
parse_madt-Parsed fuel m madt old t enough =
    let (es, w, short) = Walk-total m (entries_end m madt) (first_entry madt) in
    let start = record old { cpuid_idx = 0 } in
    (
      es,
      w,
      record {
        local_apic_addr = refl;
        new = parsed m es start;
        returns = parse_loop-parsed fuel start t w (omega arith);
        io_apic = parsed-io_apic_ptr m es start;
        cores = omega (arith, parsed-cpuid_idx m es start);
        cpuids = λ k. parsed-acpi_cpuids m es start k (omega arith) ∙ ground arith;
      },
    )
