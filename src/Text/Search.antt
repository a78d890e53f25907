-- ===== src/Text/Search.antt =====
-- `strlen`, `memzero`, `strncpy` and `strncmp` of kernel/src/libkern/string.c.
use faceless_os.Base.{
  ℕ, zero, suc, ◌+◌, ◌≤◌, ◌<◌, ◌≡◌, refl, ◌≢◌, ◌↔◌, ◌&&◌, some, arith, ltb, leb, ◌==◌,
  if◌then◌else◌, ◌∙◌, Bool-cases, inl, inr,
}
use faceless_os.Machine.Memory.{Mem, store}
use faceless_os.Text.{
  Bytes, strlen_loop, strlen, memzero_loop, memzero, strncpy_loop, strncpy, strncmp_loop, strncmp,
}

-- `n` bytes that are not 0, and then a 0.
pub record IsString (str : Bytes) (n : ℕ) : Type 0 where
  pub terminated : str n ≡ 0
  pub no_zero : (k : ℕ) → k < n → str k ≢ 0

strlen_loop_lem :
    (fuel i n : ℕ) {str : Bytes}
    → IsString str n
    → i ≤ n
    → n < i + fuel
    → strlen_loop fuel i str ≡ some n
unfolding strlen_loop
strlen_loop_lem zero i n s lo hi = absurd (omega arith)
strlen_loop_lem (suc fuel) i n {str} s lo hi = elim (Bool-cases (str i == 0)) [
  | inl z ↦ ground (arith, s.no_zero i)
  | inr nz ↦ rw nz (strlen_loop_lem fuel (i + 1) n s (ground arith) (omega arith))
]

-- With more fuel than bytes before the first 0 `strlen` returns their number.
pub strlen-IsString :
    (fuel n : ℕ) {str : Bytes} → IsString str n → n < fuel → strlen fuel str ≡ some n
unfolding strlen
strlen-IsString fuel n s h = strlen_loop_lem fuel 0 n s (omega arith) (omega arith)

pub memzero_loop_lem :
    (left i : ℕ) (ptr : Bytes) (k : ℕ)
    → memzero_loop left i ptr k ≡ (if leb i k && ltb k (i + left) then 0 else ptr k)
unfolding memzero_loop
memzero_loop_lem zero i ptr k = ground arith
memzero_loop_lem (suc left) i ptr k = memzero_loop_lem left (i + 1) (store ptr i 0) k ∙ ground arith

-- `memzero` clears the first `n` bytes and no other.
pub memzero-cleared : (ptr : Bytes) (n k : ℕ) → memzero ptr n k ≡ (if ltb k n then 0 else ptr k)
unfolding memzero
memzero-cleared ptr n k = memzero_loop_lem n 0 ptr k ∙ ground arith

strncpy_loop_lem :
    (left i n : ℕ) (dst src : Bytes) (k : ℕ)
    → IsString src n
    → i ≤ n
    → strncpy_loop left i dst src k
      ≡ (if leb i k && ltb k (i + left) && ltb k n then src k else dst k)
unfolding strncpy_loop
strncpy_loop_lem zero i n dst src k s h = ground arith
strncpy_loop_lem (suc left) i n dst src k s h = elim (Bool-cases (src i == 0)) [
  | inl z ↦ ground (arith, s.no_zero i)
  | inr nz ↦
      rw nz (
        strncpy_loop_lem left (i + 1) n (store dst i (src i)) src k s (ground arith) ∙ ground arith)
]

-- From a string, `strncpy` copies the bytes that lie before its end and before `len`, and the
-- rest of the destination keeps what it held: no 0 is written.
pub strncpy-copied :
    (dst src : Bytes) (len n k : ℕ)
    → IsString src n
    → strncpy dst src len k ≡ (if ltb k len && ltb k n then src k else dst k)
unfolding strncpy
strncpy-copied dst src len n k s = strncpy_loop_lem len 0 n dst src k s (omega arith) ∙ ground arith

abbrev pub SameBytes : Mem → ℕ → ℕ → ℕ → Type 0
SameBytes m s1 s2 n = (k : ℕ) → k < n → m (s1 + k) ≡ m (s2 + k)

strncmp_loop_equal :
    (left : ℕ) (m : Mem) (s1 s2 : ℕ)
    → 0 < s1
    → 0 < s2
    → strncmp_loop left m s1 s2 ≡ 1
    → SameBytes m s1 s2 left
unfolding strncmp_loop
strncmp_loop_equal zero m s1 s2 p q e k h = elim h [ ]
strncmp_loop_equal (suc left) m s1 s2 p q e zero h = ground arith
strncmp_loop_equal (suc left) m s1 s2 p q e (suc k) h = ground (
  arith,
  strncmp_loop_equal left m (s1 + 1) (s2 + 1) (omega arith) (omega arith) (ground arith) k,
)

strncmp_loop_complete :
    (left : ℕ) (m : Mem) (s1 s2 : ℕ)
    → 0 < s1
    → 0 < s2
    → SameBytes m s1 s2 left
    → strncmp_loop left m s1 s2 ≡ 1
unfolding strncmp_loop
strncmp_loop_complete zero m s1 s2 p q e = refl
strncmp_loop_complete (suc left) m s1 s2 p q e = ground (
  arith,
  e 0,
  strncmp_loop_complete left m (s1 + 1) (s2 + 1) (omega arith) (omega arith)
      (λ k h. ground (arith, e (suc k))),
)

strncmp_loop-le-one : (left : ℕ) (m : Mem) (s1 s2 : ℕ) → strncmp_loop left m s1 s2 ≤ 1
unfolding strncmp_loop
strncmp_loop-le-one zero m s1 s2 = omega arith
strncmp_loop-le-one (suc left) m s1 s2 =
    ground (arith, strncmp_loop-le-one left m (s1 + 1) (s2 + 1))

pub strncmp-le-one : (m : Mem) (s1 s2 n : ℕ) → strncmp m s1 s2 n ≤ 1
unfolding strncmp
strncmp-le-one m s1 s2 n = strncmp_loop-le-one n m s1 s2

-- At two pointers that are not NULL `strncmp` answers 1 exactly if the first `n` bytes agree; a 0
-- byte does not end the comparison.
pub strncmp-equal_iff :
    (m : Mem) (s1 s2 n : ℕ) → 0 < s1 → 0 < s2 → (strncmp m s1 s2 n ≡ 1) ↔ SameBytes m s1 s2 n
unfolding strncmp
strncmp-equal_iff m s1 s2 n p q =
    (strncmp_loop_equal n m s1 s2 p q, strncmp_loop_complete n m s1 s2 p q)
