-- ===== src/Machine/Memory.antt =====
-- Byte-addressed memory, and the little-endian words that the C code reads and writes in it.
-- An address is a number; a C pointer never wraps round the end of the address space.
use native.Mathlib.Nat.{pow-suc}
use faceless_os.Base.{
  ℕ, zero, suc, ◌+◌, ◌*◌, ◌/◌, ◌%◌, ◌^◌, ◌≤◌, ◌<◌, ◌≡◌, refl, ◌⊎◌, ◌∙◌, arith, ◌==◌, leb, ltb, ◌&&◌,
  if◌then◌else◌,
}

abbrev pub Mem : Type 0
Mem = ℕ → ℕ

-- `*(uint8_t*)p = v`
abbrev pub store : Mem → ℕ → ℕ → Mem
store m p v a = if a == p then v else m a

-- The word of `n` bytes at `p`.
unfoldable pub read_le : Mem → ℕ → ℕ → ℕ
read_le m p zero = 0
read_le m p (suc n) = m p + 256 * read_le m (p + 1) n

unfoldable pub write_le : Mem → ℕ → ℕ → ℕ → Mem
write_le m p zero v = m
write_le m p (suc n) v = write_le (store m p (v % 256)) (p + 1) n (v / 256)

pub write_le_outside : (m : Mem) (p n v a : ℕ) → (a < p) ⊎ (p + n ≤ a) → write_le m p n v a ≡ m a
unfolding write_le
write_le_outside m p zero v a h = refl
write_le_outside m p (suc n) v a h =
    ground (arith, write_le_outside (store m p (v % 256)) (p + 1) n (v / 256) a)

pub read_le_same :
    (m m' : Mem) (p n : ℕ)
    → ((a : ℕ) → p ≤ a → a < p + n → m a ≡ m' a)
    → read_le m p n ≡ read_le m' p n
unfolding read_le
read_le_same m m' p zero h = refl
read_le_same m m' p (suc n) h =
    ground (arith, h p, read_le_same m m' (p + 1) n (λ a lo hi. h a (omega arith) (omega arith)))

-- A word that was written is read back.
pub read_le-write_le_self : (m : Mem) (p n v : ℕ) → v < 256 ^ n → read_le (write_le m p n v) p n ≡ v
unfolding read_le write_le
read_le-write_le_self m p zero v h = omega arith
read_le-write_le_self m p (suc n) v h = ground (
  arith,
  pow-suc 256 n,
  write_le_outside (store m p (v % 256)) (p + 1) n (v / 256) p,
  read_le-write_le_self (store m p (v % 256)) (p + 1) n (v / 256),
)

-- A write leaves a word alone that it does not meet.
pub read_le-write_le_ne :
    (m : Mem) (p n q k v : ℕ)
    → (p + n ≤ q) ⊎ (q + k ≤ p)
    → read_le (write_le m q k v) p n ≡ read_le m p n
read_le-write_le_ne m p n q k v apart =
    read_le_same (write_le m q k v) m p n (λ a lo hi. write_le_outside m q k v a (ground arith))

-- Writing a zero word clears its bytes.
pub write_le-zero :
    (m : Mem) (p n a : ℕ) → write_le m p n 0 a ≡ (if leb p a && ltb a (p + n) then 0 else m a)
unfolding write_le
write_le-zero m p zero a = ground arith
write_le-zero m p (suc n) a = write_le-zero (store m p 0) (p + 1) n a ∙ ground arith
