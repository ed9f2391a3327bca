-- ===== src/Pci/Base.antt =====
-- The addresses of drivers/pci/pci.c.
use osdev_course.Common.{◌%◌, ◌^◌, ◌<◌, ◌≤◌, ◌≡◌, ◌≢◌, ◌↔◌, arith}
use osdev_course.Pci.{PciAddr, pci_base}

-- A bus, a slot and a function that there can be.
pub record IsAddr (addr : PciAddr) : Type 0 where
  pub bus : addr.bus_id < 256
  pub slot : addr.slot_id < 32
  pub func : addr.func_id < 8

-- Two functions in range have the same base address only if they are the same.
pub pci_base-injective :
    (a b : PciAddr)
    → IsAddr a
    → IsAddr b
    → pci_base a ≡ pci_base b
    → (a.bus_id ≡ b.bus_id) × (a.slot_id ≡ b.slot_id) × (a.func_id ≡ b.func_id)
unfolding pci_base
pci_base-injective a b v w e = ground (arith, v.bus, v.slot, v.func, w.bus, w.slot, w.func)

-- The base address is 0 exactly for a function out of range; otherwise it is a word with the
-- highest bit set, and its low byte is free for the register.
pub pci_base-bounds :
    (a : PciAddr)
    → (pci_base a ≢ 0 ↔ IsAddr a)
      × (pci_base a ≢ 0 → (2 ^ 31 ≤ pci_base a) × (pci_base a < 2 ^ 32) × (pci_base a % 256 ≡ 0))
unfolding pci_base
pci_base-bounds a = (
  (
    λ ne. record { bus = ground arith; slot = ground arith; func = ground arith },
    λ v. ground (arith, v.bus, v.slot, v.func),
  ),
  λ ne. ground arith,
)
