-- ===== src/Boot/Power/Started.antt =====
-- What `acpi_init` leaves behind (kernel/src/power/acpi/acpi.c).
use faceless_os.Base.{
  ℕ, ◌-◌, ◌<◌, ◌≡◌, ◌≢◌, refl, true, false, ◌==◌, arith, List, Option, some, ltb, if◌then◌else◌,
  ◌∙◌, ap,
}
use faceless_os.Machine.Memory.{Mem}
use faceless_os.Machine.Io.{Device, Trace, u8}
use faceless_os.Acpi.{
  Cpus, first_entry, entries_end, cores_end, rsdt_is_valid, rsdt_entries, get_madt, parse_madt,
}
use faceless_os.Acpi.Entries.{Walk, count_cores, cpu_detect_cores-count_cores}
use faceless_os.Acpi.Madt.{Parsed, parse_madt-Parsed}
use faceless_os.Boot.Tags.{get_tag}
use faceless_os.Boot.Power.{
  Power, rsdp_id, rsdt_of, after_parse, use_madt, controllers_init, locate_madt, rsdt_init,
  acpi_init,
}

abbrev pub count_or_kept : Mem → ℕ → List ℕ → ℕ
count_or_kept m ncores es = if ltb 0 ncores then ncores else u8 (count_cores m es)

-- The tables that were found, and what was taken from them.
pub record Started (m : Mem) (madt : ℕ) (old : Power) (r : Option Power) : Type 0 where
  pub new : Power
  pub returns : r ≡ some new
  pub found : new.madt ≡ madt
  pub entries : List ℕ
  pub walk : Walk m (entries_end m madt) (first_entry madt) entries
  pub parsed : Parsed m madt old.cpus entries (new.local_apic_addr, some new.cpus)
  pub counted_entries : List ℕ
  pub counted_walk : Walk m (cores_end m madt) (first_entry madt) counted_entries
  pub counted : new.ncores ≡ count_or_kept m old.ncores counted_entries

-- The MADT that the RSDT of a tag leads to.
abbrev pub madt_of : Mem → (apic rsdp_tg : ℕ) → ℕ
madt_of m apic rsdp_tg = get_madt m apic (rsdt_of m rsdp_tg) (rsdt_entries m (rsdt_of m rsdp_tg))

module _ (fuel : ℕ) (dev : Device) (m : Mem) where
  controllers_init-counted :
      (power : Power) (t : Trace)
      → cores_end m power.madt - first_entry power.madt < fuel
      → (es : List ℕ) × Walk m (cores_end m power.madt) (first_entry power.madt) es
        × ((controllers_init fuel dev m power t).0
            ≡ some (record power { ncores = count_or_kept m power.ncores es }))
  unfolding controllers_init
  controllers_init-counted power t enough =
      let (es, walk, e) = cpu_detect_cores-count_cores fuel m power.madt power.ncores enough in
      (es, walk, rw e refl)

  after_parse-some :
      (madt : ℕ) (power : Power) (r : ℕ × Option Cpus) {cpus : Cpus}
      → r.1 ≡ some cpus
      → after_parse fuel dev m madt power r
        ≡ controllers_init fuel dev m
            (record power { madt = madt; local_apic_addr = r.0; cpus = cpus })
  unfolding after_parse
  after_parse-some madt power r {cpus = cpus} e =
      ap (λ c. after_parse fuel dev m madt power (r.0, c)) e

  use_madt-Started :
      (madt : ℕ) (power : Power) (t : Trace)
      → entries_end m madt - first_entry madt < fuel
      → cores_end m madt - first_entry madt < fuel
      → Started m madt power (use_madt fuel dev m madt power t).0
  unfolding use_madt
  use_madt-Started madt power t enough enough' =
      let (es, walk, parsed) = parse_madt-Parsed fuel m madt power.cpus t enough in
      let r = parse_madt fuel m madt power.cpus t in
      let power' : Power = record power {
        madt = madt;
        local_apic_addr = r.0.0;
        cpus = parsed.new;
      } in
      let (es', walk', run) = controllers_init-counted power' r.1 enough' in
      record {
        new = record power' { ncores = count_or_kept m power.ncores es' };
        returns = ap (λ f. (f r.1).0) (after_parse-some madt power r.0 parsed.returns) ∙ run;
        found = refl;
        entries = es;
        walk = walk;
        parsed = record {
          local_apic_addr = parsed.local_apic_addr;
          new = parsed.new;
          returns = refl;
          io_apic = parsed.io_apic;
          cores = parsed.cores;
          cpuids = parsed.cpuids;
        };
        counted_entries = es';
        counted_walk = walk';
        counted = refl;
      }

  -- Where the RSDP tag is found, the RSDT is valid and lists a MADT, and there is more fuel than bytes up to the ends of both walks,
  -- `acpi_init` returns. It leaves the MADT to which the tag leads, what
  -- `parse_madt` takes from its entries, and the count of cores that was made before or that the
  -- entries give.
  pub acpi_init-Started :
      (apic ss rsdp_tg : ℕ) (power : Power) (t : Trace)
      → get_tag fuel m ss rsdp_id ≡ some rsdp_tg
      → rsdt_is_valid m (rsdt_of m rsdp_tg) ≡ true
      → madt_of m apic rsdp_tg ≢ 0
      → entries_end m (madt_of m apic rsdp_tg) - first_entry (madt_of m apic rsdp_tg) < fuel
      → cores_end m (madt_of m apic rsdp_tg) - first_entry (madt_of m apic rsdp_tg) < fuel
      → Started m (madt_of m apic rsdp_tg) power (acpi_init fuel dev m apic ss power t).0
  unfolding acpi_init rsdt_init locate_madt
  acpi_init-Started apic ss rsdp_tg power t tag valid there enough enough' =
      let listed : (madt_of m apic rsdp_tg == 0) ≡ false = ground (arith, there) in
      rw (tag, acpi_init, valid, listed)
        (use_madt-Started (madt_of m apic rsdp_tg) power _ enough enough')
