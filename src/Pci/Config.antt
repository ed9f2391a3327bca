-- ===== src/Pci/Config.antt =====
-- What drivers/pci/pci.c reads from the configuration space and leaves in it.
use osdev_course.Common.{
  ℕ, ◌+◌, ◌-◌, ◌*◌, ◌%◌, ◌/◌, ◌^◌, ◌<◌, ◌≡◌, refl, ap, Bool, true, false, none, some, arith, ◌==◌,
  leb, if◌then◌else◌, add32, Bool-cases, inl, inr,
}
use osdev_course.Pci.{
  PciAddr, PciInfo, pci_config_address, pci_config_data, pci_base, pci_get_info, pci_get_bar,
}
use osdev_course.Pci.Base.{IsAddr, pci_base-bounds}

-- `(~s) + 1` on words.
negated : (x : ℕ) → 0 < x → x < 2 ^ 32 - 1 → add32 (2 ^ 32 - 1 - x) 1 ≡ 2 ^ 32 - x
negated x pos h = omega arith

-- The registers of all functions, by the address that selects one.
abbrev pub Registers : Type 0
Registers = ℕ → ℕ

-- The bus: the address that was sent last, and the registers.
abbrev pub Bus : Type 0
Bus = ℕ × Registers

abbrev pub bus_inl : ℕ → Bus → ℕ × Bus
bus_inl port (at, regs) = (if port == pci_config_data then regs at else 0, (at, regs))

-- What a write does to the registers is up to the function.
module _ (write : ℕ → ℕ → Registers → Registers) where
  abbrev pub bus_outl : ℕ → ℕ → Bus → Bus
  bus_outl port v (at, regs) =
      if port == pci_config_address
      then (v, regs)
      else if port == pci_config_data
      then (at, write at v regs)
      else (at, regs)

  -- For an address in range whose first and third registers are words other than all ones,
  -- pci_get_info succeeds; the fields are the parts of the first and the third register, and no
  -- register changes.
  pub pci_get_info-fields :
      (addr : PciAddr) (info : PciInfo) (at : ℕ) (regs : Registers)
      → IsAddr addr
      → regs (pci_base addr) < 2 ^ 32 - 1
      → regs (pci_base addr + 8) < 2 ^ 32 - 1
      → (info' : PciInfo) × (at' : ℕ) × (pci_get_info bus_inl bus_outl addr info (at, regs)
          ≡ (true, info', (at', regs)))
        × (info'.device_id * 2 ^ 16 + info'.vendor_id ≡ regs (pci_base addr))
        × (info'.vendor_id < 2 ^ 16)
        × (info'.class_code * 2 ^ 8 + info'.subclass_code ≡ regs (pci_base addr + 8) / 2 ^ 16)
        × (info'.subclass_code < 2 ^ 8)
        × (info'.revision_id ≡ regs (pci_base addr + 8) % 2 ^ 8)
  unfolding pci_get_info
  pci_get_info-fields addr info at regs v there there8 =
      let (iff, bounds) = pci_base-bounds addr in
      let (high, low, free) = bounds (iff.1 v) in
      let set : (pci_base addr == 0) ≡ false = ground arith in
      let first : add32 (pci_base addr) 0 ≡ pci_base addr = omega arith in
      let third : add32 (pci_base addr) 8 ≡ pci_base addr + 8 = omega arith in
      let ids : (regs (pci_base addr) == 0xFFFFFFFF) ≡ false = ground arith in
      let class : (regs (pci_base addr + 8) == 0xFFFFFFFF) ≡ false = ground arith in
      let low32 = regs (pci_base addr) in
      let class32 = regs (pci_base addr + 8) in
      (
        record {
          device_id = low32 / 2 ^ 16;
          vendor_id = low32 % 2 ^ 16;
          class_code = class32 / 2 ^ 24;
          subclass_code = class32 / 2 ^ 16 % 2 ^ 8;
          revision_id = class32 % 2 ^ 8;
        },
        pci_base addr + 8,
        rw (set, first, third, ids, class) refl,
        omega arith,
        omega arith,
        omega arith,
        omega arith,
        omega arith,
      )

  -- pci_get_bar for one of the first five base address registers of a function that is there
  -- returns the register and, if it is asked for, the size that its bits after a write of ones
  -- stand for, without clearing the flags in the low bits; no register changes. The function
  -- answers with a word that is not all ones, and a write of the old value after the ones restores
  -- the register.
  pub pci_get_bar-restores :
      (addr : PciAddr) (index : ℕ) (with_size : Bool) (at : ℕ) (regs : Registers)
      → let bar = pci_base addr + 16 + index * 4 in
        let probed = write bar 0xFFFFFFFF regs in
        IsAddr addr
        → index < 5
        → regs bar < 2 ^ 32 - 1
        → 0 < probed bar
        → probed bar < 2 ^ 32 - 1
        → write bar (regs bar) probed ≡ regs
        → (pci_get_bar bus_inl bus_outl addr index with_size (at, regs) ≡ (
          true,
          some (regs bar),
          (if with_size then some (2 ^ 32 - probed bar) else none),
          (bar, regs),
        ))
  unfolding pci_get_bar
  pci_get_bar-restores addr index with_size at regs v small there pos probe restore =
      let (iff, bounds) = pci_base-bounds addr in
      let (high, low, free) = bounds (iff.1 v) in
      let set : (pci_base addr == 0) ≡ false = ground arith in
      let in_range : leb 5 index ≡ false = ground arith in
      let reg : add32 (add32 (pci_base addr) 16) (index * 4) ≡ pci_base addr + 16 + index * 4 =
        omega arith in
      let ones : (regs (pci_base addr + 16 + index * 4) == 0xFFFFFFFF) ≡ false = ground arith in
      let no_mask : (write (pci_base addr + 16 + index * 4) 0xFFFFFFFF regs
              (pci_base addr + 16 + index * 4)
            == 0xFFFFFFFF)
          ≡ false =
        ground arith in
      elim (Bool-cases with_size) [
        | inl e ↦
            rw (e, in_range, set, reg, ones, no_mask, restore)
              (ap
                (λ n. (
                  true,
                  some (regs (pci_base addr + 16 + index * 4)),
                  some n,
                  (pci_base addr + 16 + index * 4, regs),
                ))
                (negated
                  (write (pci_base addr + 16 + index * 4) 0xFFFFFFFF regs
                    (pci_base addr + 16 + index * 4))
                  pos probe))
        | inr e ↦ rw (e, in_range, set, reg, ones) refl
      ]
