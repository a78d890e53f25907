-- ===== src/Pci/Locate.antt =====
-- `locate_pci_device` (kernel/src/arch/pci/pci.c): the first function of the class that is asked for.
use faceless_os.Base.{
  ℕ, zero, suc, ◌+◌, ◌*◌, ◌/◌, ◌%◌, ◌≤◌, ◌<◌, ◌≡◌, refl, ◌⊎◌, Bool, true, false, ◌&&◌, Option, none,
  some, arith, ◌==◌, if◌then◌else◌, Bool-cases, Option-cases, inl, inr,
}
use faceless_os.Machine.Io.{Device, Trace, Io, u8}
use faceless_os.Pci.{
  PciDevice, fits, for_loop, func_body, slot_body, bus_body, locate_pci_device,
  pci_get_device_class,
}
use faceless_os.Pci.Config.{address_of, ConfigSpace, pci_get_device-fields}
use faceless_os.Pci.First.{first, first-some, first-none}

module _ (config : ℕ → ℕ) (classid subclassid : ℕ) where
  -- The class register of a function holds the class and the subclass.
  pub matches : ℕ → ℕ → ℕ → Bool
  matches bus slot func =
      let kind = config (address_of bus slot func 8) in
      kind / 0x1000000 == classid && kind / 0x10000 % 0x100 == subclassid

  pub candidate : ℕ → ℕ → ℕ → Option PciDevice
  unfolding matches
  candidate bus slot func =
      if matches bus slot func
      then some (record { bus = bus; slot = slot; func = func; valid = 1 })
      else none

  pub located : Option PciDevice
  located = first 256 0 (λ bus. first 32 0 (λ slot. first 8 0 (λ func. candidate bus slot func)))

-- What a search over all buses, slots and functions says of every one of them.
module _ (config : ℕ → ℕ) (classid subclassid : ℕ) where
  abbrev Fails : ℕ → ℕ → ℕ → Type 0
  Fails bus slot func = matches config classid subclassid bus slot func ≡ false

  candidate-none :
      (bus slot func : ℕ)
      → candidate config classid subclassid bus slot func ≡ none
      → Fails bus slot func
  unfolding candidate
  candidate-none bus slot func e = ground arith

  slots-none :
      (bus slot func : ℕ)
      → first 8 0 (candidate config classid subclassid bus slot) ≡ none
      → func < 8
      → Fails bus slot func
  slots-none bus slot func e h =
      candidate-none bus slot func (first-none 8 0 _ e func (omega arith) (omega arith))

  bus-none :
      (bus slot func : ℕ)
      → first 32 0 (λ slot. first 8 0 (candidate config classid subclassid bus slot)) ≡ none
      → slot < 32
      → func < 8
      → Fails bus slot func
  bus-none bus slot func e hs hf =
      slots-none bus slot func (first-none 32 0 _ e slot (omega arith) (omega arith)) hf

  located-none :
      located config classid subclassid ≡ none
      → (bus slot func : ℕ) → bus < 256
      → slot < 32
      → func < 8
      → Fails bus slot func
  unfolding located
  located-none e bus slot func hb hs hf =
      bus-none bus slot func (first-none 256 0 _ e bus (omega arith) (omega arith)) hs hf

  -- The device is a match, and every function before it in the order of the search is none.
  pub record IsFirst (d : PciDevice) : Type 0 where
    pub in_range : (d.bus < 256) × (d.slot < 32) × (d.func < 8)
    pub hit : matches config classid subclassid d.bus d.slot d.func ≡ true
    pub valid : d.valid ≡ 1
    pub before :
        (bus slot func : ℕ)
        → slot < 32
        → func < 8
        → (bus * 32 + slot) * 8 + func < (d.bus * 32 + d.slot) * 8 + d.func
        → Fails bus slot func

  located-some : {d : PciDevice} → located config classid subclassid ≡ some d → IsFirst d
  unfolding located
  located-some {d} e =
      let (bus, _, hb, e1, no_bus) = first-some 256 0 _ e in
      let (slot, _, hs, e2, no_slot) = first-some 32 0 _ e1 in
      let (func, _, hf, e3, no_func) = first-some 8 0 _ e2 in
      let (same, hit) = candidate-some bus slot func e3 in
      rw same (record {
        in_range = (omega arith, omega arith, omega arith);
        hit = hit;
        valid = refl;
        before = λ b s f sh fh lt. elim (Bool-cases (b == bus)) [
          | inr other ↦ bus-none b s f (no_bus b (omega arith) (ground arith)) sh fh
          | inl same_bus ↦
              let eb : b ≡ bus = ground arith in
              elim (Bool-cases (s == slot)) [
                | inr other ↦ rw eb (slots-none bus s f (no_slot s (omega arith) (ground arith)) fh)
                | inl same_slot ↦
                    let es : s ≡ slot = ground arith in
                    rw (eb, es) (candidate-none bus slot f (no_func f (omega arith) (omega arith)))
              ]
        ];
      })
    where
      candidate-some :
          (bus slot func : ℕ) {d : PciDevice}
          → candidate config classid subclassid bus slot func ≡ some d
          → (d ≡ record { bus = bus; slot = slot; func = func; valid = 1 })
            × (matches config classid subclassid bus slot func ≡ true)
      candidate-some bus slot func e = unfold candidate in ground arith

module _ (dev : Device) (config : ℕ → ℕ) (bridge : ConfigSpace dev config)
    (classid subclassid : ℕ) where
  fits-matches :
      (bus slot func : ℕ) (t : Trace)
      → bus < 256
      → slot < 32
      → func < 8
      → (fits dev classid subclassid bus slot func t).0
        ≡ matches config classid subclassid bus slot func
  unfolding fits matches
  fits-matches bus slot func t hb hs hf =
      let t' = (pci_get_device_class dev bus slot func t).1 in
      let (_, _, class, _) = pci_get_device-fields dev config bridge bus slot func t hb hs hf in
      let (_, _, _, subclass) = pci_get_device-fields dev config bridge bus slot func t' hb hs hf in
      elim (Bool-cases (config (address_of bus slot func 8) / 0x1000000 == classid)) [
        | inl same ↦ rw (class, same, subclass)
        | inr other ↦ rw (class, other)
      ]

  for_loop-first :
      (left n : ℕ) (body : ℕ → Io (Option PciDevice)) (p : ℕ → Option PciDevice) (t : Trace)
      → ((k : ℕ) (t : Trace) → n ≤ k → k < n + left → (body k t).0 ≡ p k)
      → (for_loop left n body t).0 ≡ first left n p
  unfolding for_loop first
  for_loop-first zero n body p t same = refl
  for_loop-first (suc left) n body p t same =
      let now = same n t (omega arith) (omega arith) in
      let later =
        for_loop-first left (n + 1) body p (body n t).1
          (λ k t lo hi. same k t (omega arith) (omega arith)) in
      elim (Option-cases (p n)) [
        | inl missing ↦ rw (now, missing) later
        | inr (a, hit) ↦ rw (now, hit)
      ]

  func_body-candidate :
      (bus slot func : ℕ) (t : Trace)
      → bus < 256
      → slot < 32
      → func < 8
      → (func_body dev classid subclassid bus slot func t).0
        ≡ candidate config classid subclassid bus slot func
  unfolding func_body candidate
  func_body-candidate bus slot func t hb hs hf =
      let b : u8 bus ≡ bus = omega arith in
      let s : u8 slot ≡ slot = omega arith in
      let f : u8 func ≡ func = omega arith in rw (fits-matches bus slot func t hb hs hf, b, s, f)

  bus_loop-located :
      (t : Trace)
      → (for_loop 256 0 (bus_body dev classid subclassid) t).0 ≡ located config classid subclassid
  bus_loop-located t =
      unfold located bus_body slot_body in
      for_loop-first 256 0 _ _ t λ bus t _ hb. for_loop-first 32 0 _ _ t λ slot t _ hs.
        for_loop-first 8 0 _ _ t λ func t _ hf.
          func_body-candidate bus slot func t (omega arith) (omega arith) (omega arith)

  -- Over a bridge that answers with the selected register, either the result is the first
  -- function, in the order of bus, slot and function, whose class register has the class and the
  -- subclass, or no function has them and the result differs from what the stack held only in
  -- that `valid` is 0.
  pub locate_pci_device-IsFirst :
      (device : PciDevice) (t : Trace)
      → let d = (locate_pci_device dev classid subclassid device t).0 in
        IsFirst config classid subclassid d
        ⊎ ((d ≡ record device { valid = 0 })
            × ((bus slot func : ℕ)
                → bus < 256
                → slot < 32
                → func < 8
                → matches config classid subclassid bus slot func ≡ false))
  unfolding locate_pci_device
  locate_pci_device-IsFirst device t =
      let found = bus_loop-located t in
      elim (Option-cases (located config classid subclassid)) [
        | inl missing ↦
            rw (found, missing) (inr (refl, located-none config classid subclassid missing))
        | inr (d, hit) ↦ rw (found, hit) (inl (located-some config classid subclassid hit))
      ]
