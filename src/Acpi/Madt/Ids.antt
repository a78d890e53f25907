-- ===== src/Acpi/Madt/Ids.antt =====
-- The processor identifiers that `parse_madt` (kernel/src/power/acpi/acpi.c) stores fit a byte.
use faceless_os.Base.{
  ℕ, ◌<◌, ◌≡◌, List, [], ◌∷◌, All, some, arith, get_or-All, Bool-cases, ◌==◌, inl, inr,
}
use mathlib.Core.Path.{subst}
use faceless_os.Machine.Memory.{Mem}
use faceless_os.Acpi.{Cpus, entry_type}
use faceless_os.Acpi.Madt.{Parsed, core_ids}

core_ids-small :
    (m : Mem) (es : List ℕ) → ((a : ℕ) → m a < 256) → All (λ x. x < 256) (core_ids m es)
unfolding core_ids
core_ids-small m [] bytes = tt
core_ids-small m (e ∷ es) bytes = elim (Bool-cases (entry_type m e == 0)) [
  | inl core ↦ rw core (bytes _, core_ids-small m es bytes)
  | inr other ↦ rw other (core_ids-small m es bytes)
]

pub acpi_cpuids-small :
    (m : Mem) (madt lapic : ℕ) (old cpus : Cpus) (es : List ℕ)
    → Parsed m madt old es (lapic, some cpus)
    → ((a : ℕ) → m a < 256)
    → ((i : ℕ) → old.acpi_cpuids i < 256)
    → (i : ℕ) → cpus.acpi_cpuids i < 256
acpi_cpuids-small m madt lapic old cpus es parsed bytes small i =
    let same : parsed.new ≡ cpus = cc parsed.returns in
    let listed =
      get_or-All (λ x. x < 256) (core_ids m es) i (old.acpi_cpuids i) (core_ids-small m es bytes)
        (small i) in
    subst (λ (c : Cpus). c.acpi_cpuids i < 256) same
      (ground (arith, parsed.cpuids i, listed, small i))
