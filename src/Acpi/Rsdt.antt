-- ===== src/Acpi/Rsdt.antt =====
-- The RSDT (kernel/src/power/acpi/acpi.c): its checksum, and the search for the MADT.
use faceless_os.Base.{
  ℕ, zero, suc, ◌+◌, ◌*◌, ◌%◌, ◌<◌, ◌≡◌, refl, ◌≢◌, inl, inr, ◌↔◌, arith, ◌==◌, true, Bool-cases,
}
use faceless_os.Machine.Memory.{Mem, read_le}
use faceless_os.Machine.Io.{u8}
use faceless_os.Text.{strncmp}
use faceless_os.Text.Search.{SameBytes, strncmp-equal_iff, strncmp-le-one}
use faceless_os.Acpi.{
  header_size, table_length, sum_loop, rsdt_is_valid, rounds, madt_loop, get_madt,
}

-- The sum of `n` bytes from `p` on.
pub total : Mem → ℕ → ℕ → ℕ
total m p zero = 0
total m p (suc n) = m p + total m (p + 1) n

sum_loop-total :
    (left : ℕ) (m : Mem) (rsdt i sum : ℕ)
    → sum < 256
    → sum_loop left m rsdt i sum ≡ (sum + total m (rsdt + i) left) % 256
unfolding sum_loop total
sum_loop-total zero m rsdt i sum h = omega arith
sum_loop-total (suc left) m rsdt i sum h =
    ground (arith, sum_loop-total left m rsdt (i + 1) (u8 (sum + m (rsdt + i))))

-- The RSDT is valid exactly if its pointer is not NULL and its bytes sum to 0 modulo 256.
pub rsdt_is_valid-total :
    (m : Mem) (rsdt : ℕ)
    → (rsdt_is_valid m rsdt ≡ true) ↔ ((rsdt ≢ 0) × (total m rsdt (table_length m rsdt) % 256 ≡ 0))
unfolding rsdt_is_valid
rsdt_is_valid-total m rsdt = ground (arith, sum_loop-total (table_length m rsdt) m rsdt 0 0)

-- The address of table `i`.
abbrev pub table_at : Mem → ℕ → ℕ → ℕ
table_at m rsdt i = read_le m (rsdt + header_size + 4 * i) 4

-- Either the result is the first table whose signature is that of the literal, or no table has it
-- and the result is NULL.
pub data Found (m : Mem) (apic rsdt entries : ℕ) : ℕ → Type 0 where
  found :
      {r : ℕ} (i : ℕ)
      → i < entries
      → r ≡ table_at m rsdt i
      → SameBytes m (table_at m rsdt i) apic 4
      → ((j : ℕ) → j < i → ¬ SameBytes m (table_at m rsdt j) apic 4)
      → Found m apic rsdt entries r
  missing :
      {r : ℕ}
      → r ≡ 0
      → ((j : ℕ) → j < entries → ¬ SameBytes m (table_at m rsdt j) apic 4)
      → Found m apic rsdt entries r

module _ (m : Mem) (apic rsdt entries : ℕ) (literal : 0 < apic)
    (tables : (i : ℕ) → i < entries → 0 < table_at m rsdt i) where
  madt_loop-Found :
      (left i : ℕ)
      → i + left ≡ entries
      → ((j : ℕ) → j < i → ¬ SameBytes m (table_at m rsdt j) apic 4)
      → Found m apic rsdt entries (madt_loop left m apic rsdt i)
  unfolding madt_loop
  madt_loop-Found zero i e before = missing refl (λ j h. before j (omega arith))
  madt_loop-Found (suc left) i e before =
      let same = strncmp-equal_iff m (table_at m rsdt i) apic 4 (tables i (omega arith)) literal in
      elim (Bool-cases (strncmp m (table_at m rsdt i) apic 4 == 0)) [
        | inl other ↦ rw other (
            madt_loop-Found left (i + 1) (omega arith) (λ j h. elim (Bool-cases (j == i)) [
              | inl at ↦
                  let here : j ≡ i = ground arith in
                  rw here (λ s. absurd (ground (arith, same.1 s)))
              | inr earlier ↦ before j (ground arith)
            ]))
        | inr hit ↦ rw hit (
            found i (omega arith) refl
              (same.0 (ground (arith, strncmp-le-one m (table_at m rsdt i) apic 4))) before)
      ]

-- Where neither the literal nor one of the tables that the loop goes over is at address 0, either
-- `get_madt` returns the first table whose signature is that of the literal, or no table has it
-- and the result is NULL. The loop goes over the listed tables, and over none where their number
-- is negative.
pub get_madt-Found :
    (m : Mem) (apic rsdt entries : ℕ)
    → 0 < apic
    → ((i : ℕ) → i < rounds entries → 0 < table_at m rsdt i)
    → Found m apic rsdt (rounds entries) (get_madt m apic rsdt entries)
unfolding get_madt
get_madt-Found m apic rsdt entries literal tables =
    madt_loop-Found m apic rsdt (rounds entries) literal tables (rounds entries) 0 (omega arith)
      (λ j h. elim h [ ])
