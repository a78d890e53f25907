-- ===== src/Boot/Init/Loaded.antt =====
-- What the boot loader and the machine supply for `init` (kernel/src/kernel.c) to come up.
use faceless_os.Base.{
  ℕ, ◌+◌, ◌-◌, ◌*◌, ◌%◌, ◌^◌, ◌<◌, ◌≤◌, ◌≡◌, ◌≢◌, true, List, [], ◌∷◌, length, arith, inl, inr, ap,
}
use faceless_os.Machine.Memory.{Mem, read_le}
use faceless_os.Machine.Io.{Device, Trace, read_cr3}
use faceless_os.Pmm.{Entry, pmm_allocz}
use faceless_os.Vmm.{Vm, unmap_page, vmm_init}
use faceless_os.Vmm.Unmap.{unmap_page-Unmapped}
use faceless_os.Vmm.Supply.{Supplied, Supplied-weaken, allocated, alloc-cases}
use faceless_os.Acpi.{rsdt_is_valid, first_entry, entries_end}
use faceless_os.Timer.Sleep.{total}
use faceless_os.Boot.Tags.{first_tag}
use faceless_os.Boot.Tags.Search.{Tags, first_with}
use faceless_os.Boot.Power.{Power, rsdp_id, rsdt_of}
use faceless_os.Boot.Power.Started.{madt_of}
use faceless_os.Boot.Wakeup.Plan.{Prompt}
use faceless_os.Boot.Init.{Machine, terminal_id, memmap_id, memory_map}

-- The memory and the tables that `vmm_init` leaves where CR3 is `cr3`.
abbrev pub vm_after : (cr3 : ℕ) → Mem → List Entry → Vm
vm_after cr3 m gmmap =
    let a = pmm_allocz gmmap m in
    (unmap_page 0 (record { mem = a.mem; gmmap = a.gmmap; pml4 = cr3 }) []).0.1

-- The MADT that the tags lead to.
abbrev pub madt_in : Machine → Mem → (tags : List ℕ) → ℕ
madt_in machine m tags = madt_of m machine.apic (first_with m rsdp_id tags)

-- `cr3` is what the boot loader leaves in CR3, `room` bounds the free frames, `own` is the id of the
-- processor, `most` bounds the ticks of a sleep, `m'` is the memory that `vmm_init` leaves, and `tags`
-- and `tags_left` are the tags in `m` and in `m'`.
pub record Loaded (machine : Machine) (ss cr3 room own most : ℕ) (tags tags_left : List ℕ)
    (m m' : Mem) (power : Power) : Type 0 where
  pub tag_chain : Tags m (first_tag m ss) tags
  pub few_tags : length tags < room + 4
  pub terminal : first_with m terminal_id tags ≢ 0
  pub cr3_kept : (t : Trace) → machine.dev (read_cr3 ∷ t) % 2 ^ 64 ≡ cr3
  pub supplied :
      Supplied room
        (record { mem = m; gmmap = memory_map m (first_with m memmap_id tags); pml4 = cr3 })
  pub leaves : (vm_after cr3 m (memory_map m (first_with m memmap_id tags))).mem ≡ m'
  pub bytes : (a : ℕ) → m' a < 256
  pub tag_chain_left : Tags m' (first_tag m' ss) tags_left
  pub few_tags_left : length tags_left < room + 4
  pub valid : rsdt_is_valid m' (rsdt_of m' (first_with m' rsdp_id tags_left)) ≡ true
  pub listed : madt_in machine m' tags_left ≢ 0
  pub enough :
      let madt = madt_in machine m' tags_left in entries_end m' madt - first_entry madt < room + 4
  pub prompt : Prompt machine.dev (read_le m' (madt_in machine m' tags_left + 36) 4) own
  pub small_ids : (i : ℕ) → (let c = power.cpus in c.acpi_cpuids) i < 256
  pub small_count : power.ncores < 256
  pub long : (j : ℕ) → 50 ≤ total (machine.schedules j)
  pub short : (j : ℕ) → total (machine.schedules j) ≤ most
  pub few_ticks : 510 * most < 2 ^ 32

unmap_page-trace : (vm : Vm) (t : Trace) → (unmap_page 0 vm t).0 ≡ (unmap_page 0 vm []).0
unfolding unmap_page
unmap_page-trace vm t = ground arith

pub vmm_init-vm_after :
    (dev : Device) (cr3 : ℕ) (m : Mem) (gmmap : List Entry) (t : Trace)
    → ((t' : Trace) → dev (read_cr3 ∷ t') % 2 ^ 64 ≡ cr3)
    → (vmm_init dev (record { mem = m; gmmap = gmmap; pml4 = 0 }) t).0 ≡ vm_after cr3 m gmmap
unfolding vmm_init
vmm_init-vm_after dev cr3 m gmmap t kept =
    rw (kept t) (ap (λ r. r.1) (unmap_page-trace _ (read_cr3 ∷ t)))

Supplied-same :
    (room : ℕ) (vm vm' : Vm)
    → (vm'.gmmap ≡ vm.gmmap) × (vm'.pml4 ≡ vm.pml4)
    → Supplied room vm
    → Supplied room vm'
Supplied-same room vm vm' same s = record {
  whole = rw same.0 s.whole;
  left = rw same.0 s.left;
  above = rw same.1 s.above;
  paged = rw same.1 s.paged;
}

Supplied-allocated :
    (room : ℕ) (vm : Vm) (m : Mem) → Supplied room vm → Supplied room (allocated vm m)
Supplied-allocated room vm m s = elim (alloc-cases vm m room s) [
  | inl (_, after) ↦ Supplied-weaken 0 room (allocated vm m) (omega arith) after
  | inr (k, e, after) ↦ Supplied-weaken k room (allocated vm m) (omega arith) after
]

pub vm_after-Supplied :
    (room cr3 : ℕ) (m : Mem) (gmmap : List Entry)
    → Supplied room (record { mem = m; gmmap = gmmap; pml4 = cr3 })
    → Supplied room (vm_after cr3 m gmmap)
unfolding pmm_allocz
vm_after-Supplied room cr3 m gmmap s =
    let a = pmm_allocz gmmap m in
    let start : Vm = record { mem = m; gmmap = gmmap; pml4 = cr3 } in
    Supplied-same room (allocated start a.mem) (vm_after cr3 m gmmap)
      (unmap_page-Unmapped 0 (allocated start a.mem) [] (omega arith) (omega arith)).same
      (Supplied-allocated room start a.mem s)
